-- ===== src/Mux/Tests.antt =====
-- The listings at concrete inputs.
use scomp_agent.Common.{equal, ◌≡◌, refl, true, List, [], ◌∷◌, arith, Bytes, text}
use scomp_agent.Mux.Listing.{listing, foreign, parse_output-listing}
use scomp_agent.Mux.Names.{names, Distinct, is_told, parse_screen_output-Distinct}
use scomp_agent.Mux.{
  parse_output, digits, windows_of, parse_lines, display_name, is_seen, screen_fields, screen_line,
  keep_new, parse_screen_lines, parse_screen_output, TmuxSession, linked_session_name,
}
use scomp_agent.Strings.{
  trim_space, trim_left, trim_right, has_prefix, onto_first, split_at, cut_at, fields_from, fields,
  contains, strip_left, strip_right, trim,
}
use scomp_agent.Term.Line.{is_space}

abbrev tmux_lines : Bytes
tmux_lines = text "work|3\nscomp-work|3\nhome\n|12a\n"

parse_output-tmux_lines :
    parse_output tmux_lines
    ≡ record { name = text "work"; windows = 3 }
      ∷ record { name = text "home"; windows = 1 }
      ∷ record { name = []; windows = 12 }
      ∷ []
unfolding parse_output parse_lines windows_of digits cut_at split_at onto_first trim_space trim_left
    trim_right has_prefix is_space
parse_output-tmux_lines = refl

abbrev screen_lines : Bytes
screen_lines =
    text
      "There are screens on:\n\t12.web\t(Detached)\n\t11.web\t(Attached)\n\t9.db.x (Dead ???)\n\t8.a.b\t(Attached)\n2 Sockets in /run/screen.\n"

parse_screen_output-screen_lines :
    parse_screen_output screen_lines
    ≡ record { full_name = text "12.web"; name = text "web"; status = text "Detached" }
      ∷ record { full_name = text "8.a.b"; name = text "a.b"; status = text "Attached" }
      ∷ []
unfolding parse_screen_output parse_screen_lines keep_new screen_line screen_fields display_name
    is_seen cut_at split_at onto_first trim_space trim_left trim_right is_space fields fields_from
    trim strip_left strip_right contains equal
parse_screen_output-screen_lines = refl

abbrev sessions : List TmuxSession
sessions =
    record { name = text "my work"; windows = 12 }
    ∷ record { name = linked_session_name (text "my work"); windows = 12 }
    ∷ record { name = text "db"; windows = 1 }
    ∷ []

parse_output-listing_example : parse_output (listing sessions) ≡ foreign sessions
unfolding contains is_space
parse_output-listing_example =
    parse_output-listing sessions
      (
        record {
          no_bar = refl;
          no_newline = refl;
          some_windows = omega arith;
          bounded = omega arith;
        },
        (
          record {
            no_bar = refl;
            no_newline = refl;
            some_windows = omega arith;
            bounded = omega arith;
          },
          (
            record {
              no_bar = refl;
              no_newline = refl;
              some_windows = omega arith;
              bounded = omega arith;
            },
            tt,
          ),
        ),
      )
      refl

parse_screen_output-Distinct_example :
    Distinct (names (parse_screen_output screen_lines))
    × ((n : Bytes)
        → is_told n (split_at b'\n' screen_lines) ≡ true
        → is_seen (names (parse_screen_output screen_lines)) n ≡ true)
parse_screen_output-Distinct_example = parse_screen_output-Distinct screen_lines
