-- ===== src/Shell/Commands.antt =====
-- fakeshell/commands.go: the commands that work on the file tree, the working directory and the
-- environment.
pub mod Stays
pub mod Runs
mod Tests
use scomp_agent.Common.{
  equal, lookup, erase, ℕ, ◌+◌, ◌-◌, ◌/◌, ◌%◌, Bool, true, not, ◌&&◌, ◌||◌, Option, none, some,
  List, [], ◌∷◌, ◌++◌, ◌==◌, if◌then◌else◌, Bytes, Map, set, text,
}
use scomp_agent.Strings.{is_nil, cut_at}
use scomp_agent.Vfs.Paths.{resolve}
use scomp_agent.Vfs.Tree.{ok, err, Result, Config, Fs, FsError, stat}
use scomp_agent.Vfs.Tree
use scomp_agent.Vfs.Write.{touch}
use scomp_agent.Vfs.Dirs
use scomp_agent.Vfs.Dirs.{read_dir, less}

-- The part of `shell` that these commands read and change. `out` is what `sh.t` was given.
pub record Machine : Type 0 where
  pub fs : Fs
  pub cwd : Bytes
  pub oldpwd : Bytes
  pub env : Map Bytes
  pub out : Bytes

abbrev pub shell_home : Bytes
shell_home = text "/home/review"

abbrev pub say : Bytes → Machine → Machine
say s m = record m { out = m.out ++ s }

-- `%v` of an error of the file tree.
unfoldable pub error_text : FsError → Bytes
error_text Tree.not_exist = text "No such file or directory"
error_text Tree.exist = text "File exists"
error_text Tree.not_dir = text "Not a directory"
error_text Tree.is_dir_error = text "Is a directory"
error_text Tree.permission = text "Permission denied"
error_text Tree.not_empty = text "Directory not empty"
error_text Tree.no_space = text "No space left on device"
error_text Tree.invalid = text "Invalid argument"

unfoldable pub fs_err : Bytes → Bytes → FsError → Bytes
unfolding error_text
fs_err prog name e = prog ++ (text ": " ++ (name ++ (text ": " ++ (error_text e ++ b'\n' ∷ []))))

abbrev pub abs : Machine → Bytes → Bytes
abs m p = resolve m.cwd p

-- `strings.Join` with a separator.
unfoldable pub join_by : Bytes → List Bytes → Bytes
join_by sep [] = []
join_by sep (w ∷ []) = w
join_by sep (w ∷ w' ∷ ws) = w ++ (sep ++ join_by sep (w' ∷ ws))

unfoldable pub cmd_pwd : Machine → ℕ × Machine
cmd_pwd m = (0, say (m.cwd ++ b'\n' ∷ []) m)

echo_words : Bool → List Bytes → Bool × List Bytes
echo_words newline [] = (newline, [])
echo_words newline (w ∷ words) =
    let rest = echo_words (newline && not (equal w (text "-n"))) words in
    if equal w (text "-n") || equal w (text "-e") || equal w (text "-E")
    then rest
    else (newline, w ∷ words)

-- The arguments of a command are those behind its name.
unfoldable pub cmd_echo : List Bytes → Machine → ℕ × Machine
unfolding echo_words join_by
cmd_echo args m =
    let (newline, words) = echo_words true args in
    let line = join_by (text " ") words in (0, say (if newline then line ++ b'\n' ∷ [] else line) m)

-- `strings.Cut` at an equals sign, if it has one and the name is not empty.
unfoldable pub assignment : Bytes → Option (Bytes × Bytes)
assignment a =
    let (k, v) = cut_at b'=' a in
    elim v [ none ↦ none | some v ↦ if is_nil k then none else some (k, v) ]

export_found : Option (Bytes × Bytes) → Map Bytes → Map Bytes
export_found none env = env
export_found (some (k, v)) env = set k v env

unfoldable pub export_all : List Bytes → Map Bytes → Map Bytes
unfolding export_found assignment
export_all [] env = env
export_all (a ∷ args) env = export_all args (export_found (assignment a) env)

unfoldable pub cmd_export : List Bytes → Machine → ℕ × Machine
unfolding export_all
cmd_export args m = (0, record m { env = export_all args m.env })

unfoldable pub unset_all : List Bytes → Map Bytes → Map Bytes
unset_all [] env = env
unset_all (a ∷ args) env = unset_all args (erase a env)

unfoldable pub cmd_unset : List Bytes → Machine → ℕ × Machine
unfolding unset_all
cmd_unset args m = (0, record m { env = unset_all args m.env })

-- The variables in the order of their names.
insert_var : Bytes × Bytes → Map Bytes → Map Bytes
insert_var (k, v) [] = (k, v) ∷ []
insert_var (k, v) ((j, w) ∷ env) =
    let rest = insert_var (k, v) env in if less j k then (j, w) ∷ rest else (k, v) ∷ (j, w) ∷ env

sort_vars : Map Bytes → Map Bytes
unfolding insert_var
sort_vars [] = []
sort_vars (e ∷ env) = insert_var e (sort_vars env)

env_lines : Map Bytes → Bytes
env_lines [] = []
env_lines ((k, v) ∷ env) = k ++ (b'=' ∷ v ++ b'\n' ∷ env_lines env)

pub env_found : Option Bytes → Machine → ℕ × Machine
env_found none m = (1, m)
env_found (some v) m = (0, say (v ++ b'\n' ∷ []) m)

unfoldable pub cmd_env : List Bytes → Machine → ℕ × Machine
unfolding sort_vars env_lines env_found
cmd_env [] m = (0, say (env_lines (sort_vars m.env)) m)
cmd_env (name ∷ args) m = env_found (lookup name m.env) m

-- A loop over names, with the status that it returns.
unfoldable pub for_each : (Bytes → Machine → ℕ × Machine) → List Bytes → ℕ → Machine → ℕ × Machine
for_each one [] status m = (status, m)
for_each one (n ∷ names) status m =
    let (s, m') = one n m in for_each one names (if s == 0 then status else s) m'

pub complain : Bytes → Bytes → FsError → Bytes
complain before name e = before ++ (name ++ (text "': " ++ (error_text e ++ b'\n' ∷ [])))

-- What a recursion of the file tree leaves; the texts are those of an error, and a recursion that
-- runs out of fuel has no status.
unfoldable pub settled : Bytes → Bytes → Machine → Fs × Dirs.End → ℕ × Machine
unfolding complain
settled before name m (f, Dirs.done) = (0, record m { fs = f })
settled before name m (f, Dirs.out_of_fuel) = (1, record m { fs = f })
settled before name m (f, Dirs.failed e) = (1, say (complain before name e) (record m { fs = f }))

module _ (cfg : Config) (now : ℕ) where
  -- `cmdCd` behind its treatment of `-`.
  pub cd_listed : Bytes → Bytes → Machine → Result (List Tree.Info) → ℕ × Machine
  unfolding fs_err
  cd_listed target p m (err e) = (1, say (fs_err (text "bash: cd") target e) m)
  cd_listed target p m (ok entries) = (
    0,
    record m {
      oldpwd = m.cwd;
      cwd = p;
      env = set (text "OLDPWD") m.cwd (set (text "PWD") p m.env);
    },
  )

  pub cd_stat : Bytes → Bytes → Machine → Result Tree.Info → ℕ × Machine
  unfolding cd_listed fs_err
  cd_stat target p m (err e) = (1, say (fs_err (text "bash: cd") target e) m)
  cd_stat target p m (ok st) =
      if not st.is_dir
      then (1, say (fs_err (text "bash: cd") target Tree.not_dir) m)
      else cd_listed target p m (read_dir cfg now m.fs p)

  unfoldable pub cd_to : Bytes → Machine → ℕ × Machine
  unfolding cd_stat
  cd_to target m = cd_stat target (abs m target) m (stat cfg now m.fs (abs m target))

  pub cd_dash : Machine → ℕ × Machine
  unfolding cd_to
  cd_dash m =
      if is_nil m.oldpwd
      then (1, say (text "bash: cd: OLDPWD not set\n") m)
      else cd_to m.oldpwd (say (m.oldpwd ++ b'\n' ∷ []) m)

  unfoldable pub cmd_cd : List Bytes → Machine → ℕ × Machine
  unfolding cd_to cd_dash
  cmd_cd [] m = cd_to shell_home m
  cmd_cd (target ∷ []) m = if equal target (text "-") then cd_dash m else cd_to target m
  cmd_cd (a ∷ b ∷ args) m = (1, say (text "bash: cd: too many arguments\n") m)

  pub touched : Bytes → Machine → Result Fs → ℕ × Machine
  unfolding complain
  touched name m (ok f) = (0, record m { fs = f })
  touched name m (err e) = (1, say (complain (text "touch: cannot touch '") name e) m)

  unfoldable pub cmd_touch : List Bytes → Machine → ℕ × Machine
  unfolding touched for_each
  cmd_touch [] m = (1, say (text "touch: missing file operand\n") m)
  cmd_touch (a ∷ args) m =
      for_each (λ n m. touched n m (touch cfg now m.fs (abs m n))) (a ∷ args) 0 m
