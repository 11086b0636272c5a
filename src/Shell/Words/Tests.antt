-- ===== src/Shell/Words/Tests.antt =====
-- The simulated shell at concrete inputs.
use scomp_agent.Common.{equal, lookup, ◌≡◌, refl, ◌≢◌, true, List, [], ◌∷◌, map, Bytes, text}
use scomp_agent.Shell.Words.{
  split, unsupported, Env, is_alpha, in_name, take_name, named, expand, close_up, has_rune,
  expanded, escaped, in_single, escapes, in_double, tilde_ends, unquoted, step, ok, err,
  out_of_fuel, finish, split_from,
}
use scomp_agent.Shell.Words.Quote.{split-line_of, line_of, plain}
use scomp_agent.Shell.Words.Fuel.{split-enough}

abbrev login : Env
login = record { vars = (text "HOME", text "/home/me") ∷ []; status = 7 }

split-mixed :
    split login (text "ls ~/'a b' \"$HOME\"7 *.go # rest")
    ≡ ok (
        plain (text "ls")
        ∷ plain (text "/home/me/a b")
        ∷ plain (text "/home/me7")
        ∷ record { content = text "*.go"; glob = true }
        ∷ [])
unfolding split split_from step in_single in_double unquoted close_up has_rune escaped expanded
    expand tilde_ends is_alpha take_name named in_name lookup equal finish escapes
split-mixed = refl

split-pipe : split login (text "a | b") ≡ err unsupported
unfolding split split_from step unquoted close_up has_rune
split-pipe = refl

split-enough_example : split login (text "echo ${HOME") ≢ out_of_fuel
split-enough_example = split-enough login (text "echo ${HOME")

abbrev odd_words : List Bytes
odd_words = text "it's" ∷ text "$HOME | *" ∷ [] ∷ []

split-line_of_example : split login (line_of odd_words) ≡ ok (map plain odd_words)
split-line_of_example = split-line_of login odd_words
