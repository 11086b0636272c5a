-- ===== src/Shell/Commands/Tests.antt =====
-- The commands at concrete inputs.
use scomp_agent.Common.{equal, ℕ, ◌≡◌, refl, true, none, List, [], ◌∷◌, arith, text}
use scomp_agent.Vfs.Paths.{clean}
use scomp_agent.Vfs.Resolve.{clean-IsClean}
use scomp_agent.Vfs.Tree.{Config, empty}
use scomp_agent.Shell.Files.{
  excerpt, lines_in, onto_first_line, glued, line_args, lines_of, with_count, atoi, atoi_unsigned,
  atoi_digits, atoi_fits,
}
use scomp_agent.Strings.{has_prefix}
use scomp_agent.Shell.Commands.{Machine, join_by, echo_words, cmd_echo}
use scomp_agent.Shell.Commands.Stays.{Stays}
use scomp_agent.Shell.Commands.Runs.{run_all, run_all-Stays, Command, do_mkdir, do_cd, do_rm}

abbrev config : Config
config = record {
  base_tree = none;
  extra_dirs = text "/home/review" ∷ [];
  static = [];
  generated = [];
  user = text "review";
  home = text "/home/review";
  writable = text "/home/review" ∷ [];
  private_paths = [];
  base_time = 0;
  max_entries = 4;
  max_bytes = 50;
}

abbrev login : Machine
login = record {
  fs = empty;
  cwd = clean (b'/' ∷ text "home/review");
  oldpwd = [];
  env = (text "HOME", text "/home/review") ∷ [];
  out = [];
}

login-Stays : Stays config login
login-Stays = record {
  tree = record { unique = tt; counted = refl; bytes_le = omega arith; entries_le = omega arith };
  inside = clean-IsClean (text "home/review");
}

abbrev visit : List (ℕ × Command)
visit =
    (1, do_mkdir (text "-p" ∷ text "a/b" ∷ []))
    ∷ (2, do_cd (text "a/b/../../../../.." ∷ []))
    ∷ (3, do_cd (text "-" ∷ []))
    ∷ (4, do_rm (text "-rf" ∷ text "a" ∷ []))
    ∷ []

run_all-Stays_example : Stays config (run_all config visit login)
run_all-Stays_example = run_all-Stays config visit login login-Stays

cmd_echo-flags :
    (cmd_echo (text "-n" ∷ text "-e" ∷ text "a" ∷ text "-n" ∷ []) login).1.out ≡ text "a -n"
unfolding cmd_echo echo_words join_by equal
cmd_echo-flags = refl

excerpt-tail : excerpt true 2 (text "a\nb\nc") ≡ text "b\nc"
unfolding excerpt lines_in onto_first_line glued
excerpt-tail = refl

line_args-counts :
    line_args 10 [] (text "-n" ∷ text "3" ∷ text "f" ∷ text "-2" ∷ []) ≡ lines_of 2 (text "f" ∷ [])
unfolding line_args has_prefix equal with_count atoi atoi_unsigned atoi_digits atoi_fits
line_args-counts = refl
