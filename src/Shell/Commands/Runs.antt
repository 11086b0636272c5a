-- ===== src/Shell/Commands/Runs.antt =====
-- Whatever is typed, the working directory stays inside the tree.
use scomp_agent.Common.{ℕ, true, false, List, [], ◌∷◌, Bytes, text}
use scomp_agent.Vfs.Tree.{Config}
use scomp_agent.Shell.Files.{cmd_mkdir, cmd_rm, cmd_rmdir, cmd_cat, head_tail, line_args, cat_names}
use scomp_agent.Shell.Commands.{
  Machine, cmd_cd, cmd_pwd, cmd_echo, cmd_export, cmd_unset, cmd_env, cmd_touch,
}
use scomp_agent.Shell.Commands.Stays.{
  Stays, StaysAfter, Stays-cmd_cd, Stays-cmd_env, Stays-cmd_mkdir, Stays-cmd_rm, Stays-cmd_rmdir,
  Stays-cmd_touch, Stays-env, Stays-head_tail_args, Stays-read_files, Stays-say,
}

-- The commands, with their arguments.
pub data Command : Type 0 where
  do_cd do_echo do_export do_unset do_env do_touch : List Bytes → Command
  do_mkdir do_rm do_rmdir do_cat do_head do_tail : List Bytes → Command
  do_pwd : Command

module _ (cfg : Config) where
  -- One command, at its time.
  unfoldable pub execute : ℕ → Command → Machine → ℕ × Machine
  execute now (do_cd args) m = cmd_cd cfg now args m
  execute now (do_echo args) m = cmd_echo args m
  execute now (do_export args) m = cmd_export args m
  execute now (do_unset args) m = cmd_unset args m
  execute now (do_env args) m = cmd_env args m
  execute now (do_touch args) m = cmd_touch cfg now args m
  execute now (do_mkdir args) m = cmd_mkdir cfg now args m
  execute now (do_rm args) m = cmd_rm cfg now args m
  execute now (do_rmdir args) m = cmd_rmdir cfg now args m
  execute now (do_cat args) m = cmd_cat cfg now (text "cat") args m
  execute now do_pwd m = cmd_pwd m
  execute now (do_head args) m = head_tail cfg now (text "head") false args m
  execute now (do_tail args) m = head_tail cfg now (text "tail") true args m

  Stays-execute :
      (now : ℕ) (c : Command) (m : Machine) → Stays cfg m → StaysAfter cfg (execute now c m)
  unfolding execute cmd_echo cmd_export cmd_unset cmd_cat cmd_pwd head_tail
  Stays-execute now (do_cd args) m h = Stays-cmd_cd cfg now args m h
  Stays-execute now (do_echo args) m h = Stays-say cfg _ m h
  Stays-execute now (do_export args) m h = Stays-env cfg _ m h
  Stays-execute now (do_unset args) m h = Stays-env cfg _ m h
  Stays-execute now (do_env args) m h = Stays-cmd_env cfg now args m h
  Stays-execute now (do_touch args) m h = Stays-cmd_touch cfg now args m h
  Stays-execute now (do_mkdir args) m h = Stays-cmd_mkdir cfg now args m h
  Stays-execute now (do_rm args) m h = Stays-cmd_rm cfg now args m h
  Stays-execute now (do_rmdir args) m h = Stays-cmd_rmdir cfg now args m h
  Stays-execute now (do_cat args) m h =
      Stays-read_files cfg now (text "cat") (cat_names args) (λ n content. content) m h
  Stays-execute now do_pwd m h = Stays-say cfg _ m h
  Stays-execute now (do_head args) m h =
      Stays-head_tail_args cfg now (text "head") false (line_args 10 [] args) m h
  Stays-execute now (do_tail args) m h =
      Stays-head_tail_args cfg now (text "tail") true (line_args 10 [] args) m h

  unfoldable pub run_all : List (ℕ × Command) → Machine → Machine
  run_all [] m = m
  run_all ((now, c) ∷ cs) m = run_all cs (execute now c m).1

  -- However a visitor of the fake shell changes directories, makes, touches and removes files, sets
  -- variables and prints, the working directory stays a slash and names of entries, without `.`,
  -- `..` or an empty name, so that it never leaves the tree, and the files stay within their limits.
  pub run_all-Stays :
      (cs : List (ℕ × Command)) (m : Machine) → Stays cfg m → Stays cfg (run_all cs m)
  unfolding run_all
  run_all-Stays [] m h = h
  run_all-Stays ((now, c) ∷ cs) m h = run_all-Stays cs (execute now c m).1 (Stays-execute now c m h)
