-- ===== src/Shell/Files.antt =====
-- fakeshell/commands.go: the commands that make and remove directories, and those that print files.
use scomp_agent.Common.{
  equal, ℕ, ◌+◌, ◌-◌, ◌*◌, ◌^◌, min, Bool, true, false, not, ◌&&◌, ◌||◌, Option, none, some, List,
  [], ◌∷◌, ◌++◌, ltb, leb, ◌==◌, if◌then◌else◌, Bytes, length, take, drop, text,
}
use scomp_agent.Strings.{has_prefix, contains}
use scomp_agent.Vfs.Tree
use scomp_agent.Vfs.Tree.{Result, ok, err, Config, stat, read_file}
use scomp_agent.Vfs.Dirs.{mkdir, remove}
use scomp_agent.Shell.Commands.{Machine, say, fs_err, abs, for_each, complain, settled}

-- The names among the arguments of `mkdir`, and whether there is a flag for parents.
unfoldable pub mkdir_args : List Bytes → Bool × List Bytes
mkdir_args [] = (false, [])
mkdir_args (a ∷ args) =
    let (parents, names) = mkdir_args args in
    if equal a (text "-p") || equal a (text "--parents")
    then (true, names)
    else (parents, a ∷ names)

-- The flags `-r` and `-f` of `rm`, and the names.
unfoldable pub rm_args : List Bytes → Bool × Bool × List Bytes
rm_args [] = (false, false, [])
rm_args (a ∷ args) =
    let (recursive, force, names) = rm_args args in
    if has_prefix (text "-") a && ltb 1 (length a)
    then (recursive || contains b'r' a || contains b'R' a, force || contains b'f' a, names)
    else (recursive, force, a ∷ names)

-- `strconv.Atoi` of a number that is no less than 0; it fails on what does not fit in an `int`.
unfoldable pub atoi_digits : ℕ → Bytes → Option ℕ
atoi_digits n [] = some n
atoi_digits n (c ∷ p) =
    let rest = atoi_digits (n * 10 + (c - b'0')) p in
    if leb b'0' c && leb c b'9' then rest else none

unfoldable pub atoi_fits : Option ℕ → Option ℕ
atoi_fits none = none
atoi_fits (some n) = if ltb n (2 ^ 63) then some n else none

unfoldable pub atoi_unsigned : Bytes → Option ℕ
unfolding atoi_digits atoi_fits
atoi_unsigned [] = none
atoi_unsigned (c ∷ p) = atoi_fits (atoi_digits 0 (c ∷ p))

atoi_zero : Option ℕ → Option ℕ
atoi_zero none = none
atoi_zero (some n) = if n == 0 then some 0 else none

unfoldable pub atoi : Bytes → Option ℕ
unfolding atoi_unsigned atoi_zero
atoi [] = none
atoi (c ∷ p) =
    if c == b'+'
    then atoi_unsigned p
    else if c == b'-'
    then atoi_zero (atoi_unsigned p)
    else atoi_unsigned (c ∷ p)

-- The result of `lineCountArgs`, or its message.
pub data LineArgs : Type 0 where
  lines_of : ℕ → List Bytes → LineArgs
  bad_args : Bytes → LineArgs

abbrev bad_lines : Bytes → LineArgs
bad_lines a = bad_args (text "invalid number of lines: '" ++ (a ++ text "'"))

abbrev bad_option : Bytes → LineArgs
bad_option a = bad_args (text "invalid option -- '" ++ (a ++ text "'"))

-- What follows a count that was read.
unfoldable pub with_count : Option ℕ → LineArgs → (ℕ → LineArgs) → LineArgs
with_count none bad next = bad
with_count (some n) bad next = next n

-- The loop of `lineCountArgs`, with the names so far.
unfoldable pub line_args : ℕ → List Bytes → List Bytes → LineArgs
unfolding with_count
line_args n names [] = lines_of n names
line_args n names (a ∷ []) =
    if has_prefix (text "-n") a
    then with_count (atoi (drop 2 a)) (bad_lines (drop 2 a)) (λ v. lines_of v names)
    else if has_prefix (text "-") a && ltb 1 (length a)
    then with_count (atoi (drop 1 a)) (bad_option (drop 1 a)) (λ v. lines_of v names)
    else lines_of n (names ++ a ∷ [])
line_args n names (a ∷ b ∷ args) =
    if equal a (text "-n")
    then with_count (atoi b) (bad_lines b) (λ v. line_args v names args)
    else if has_prefix (text "-n") a
    then with_count (atoi (drop 2 a)) (bad_lines (drop 2 a)) (λ v. line_args v names (b ∷ args))
    else if has_prefix (text "-") a && ltb 1 (length a)
    then with_count (atoi (drop 1 a)) (bad_option (drop 1 a)) (λ v. line_args v names (b ∷ args))
    else line_args n (names ++ a ∷ []) (b ∷ args)

-- `strings.SplitAfter` at newlines, less an empty last piece.
unfoldable pub onto_first_line : ℕ → List Bytes → List Bytes
onto_first_line c [] = (c ∷ []) ∷ []
onto_first_line c (l ∷ ls) = (c ∷ l) ∷ ls

unfoldable pub lines_in : Bytes → List Bytes
unfolding onto_first_line
lines_in [] = []
lines_in (c ∷ p) =
    let rest = lines_in p in if c == b'\n' then (c ∷ []) ∷ rest else onto_first_line c rest

unfoldable pub glued : List Bytes → Bytes
glued [] = []
glued (l ∷ ls) = l ++ glued ls

-- What `head` or `tail` prints of a file.
unfoldable pub excerpt : Bool → ℕ → Bytes → Bytes
unfolding lines_in glued
excerpt tail n p =
    let ls = lines_in p in
    if tail then glued (drop (length ls - n) ls) else glued (take (min n (length ls)) ls)

unfoldable pub cat_names : List Bytes → List Bytes
cat_names [] = []
cat_names (a ∷ args) =
    let rest = cat_names args in
    if not (has_prefix (text "-") a) || equal a (text "-") then a ∷ rest else rest

-- The text of `headTail` for one of several files.
titled : Bool → Bytes → Bytes → Bytes
titled several n content =
    if several then text "==> " ++ (n ++ (text " <==\n" ++ content)) else content

module _ (cfg : Config) (now : ℕ) where
  unfoldable pub make_each : Bool → Bytes → Machine → ℕ × Machine
  make_each parents n m =
      settled (text "mkdir: cannot create directory '") n m (mkdir cfg now m.fs (abs m n) parents)

  unfoldable pub cmd_mkdir : List Bytes → Machine → ℕ × Machine
  unfolding mkdir_args make_each for_each
  cmd_mkdir args m =
      let (parents, names) = mkdir_args args in
      if length names == 0
      then (1, say (text "mkdir: missing operand\n") m)
      else for_each (make_each parents) names 0 m

  unfoldable pub rm_stat : Bool → Bool → Bytes → Machine → Result Tree.Info → ℕ × Machine
  rm_stat recursive force n m (err e) =
      if force then (0, m) else (1, say (complain (text "rm: cannot remove '") n e) m)
  rm_stat recursive force n m (ok st) =
      if st.is_dir && not recursive
      then (1, say (complain (text "rm: cannot remove '") n Tree.is_dir_error) m)
      else settled (text "rm: cannot remove '") n m (remove cfg now m.fs (abs m n) recursive)

  unfoldable pub rm_each : Bool → Bool → Bytes → Machine → ℕ × Machine
  unfolding rm_stat
  rm_each recursive force n m = rm_stat recursive force n m (stat cfg now m.fs (abs m n))

  unfoldable pub cmd_rm : List Bytes → Machine → ℕ × Machine
  unfolding rm_args rm_each for_each
  cmd_rm args m =
      let (recursive, force, names) = rm_args args in
      if length names == 0
      then (1, say (text "rm: missing operand\n") m)
      else for_each (rm_each recursive force) names 0 m

  unfoldable pub rmdir_each : Bytes → Machine → ℕ × Machine
  rmdir_each n m =
      settled (text "rmdir: failed to remove '") n m (remove cfg now m.fs (abs m n) false)

  unfoldable pub cmd_rmdir : List Bytes → Machine → ℕ × Machine
  unfolding rmdir_each for_each
  cmd_rmdir args m = for_each rmdir_each args 0 m

  -- `readFiles`; `show` gives the text for a file.
  unfoldable pub read_found :
      Bytes → (Bytes → Bytes → Bytes) → Bytes → Machine → Result Bytes → ℕ × Machine
  read_found prog show n m (err e) = (1, say (fs_err prog n e) m)
  read_found prog show n m (ok content) = (0, say (show n content) m)

  unfoldable pub read_files : Bytes → List Bytes → (Bytes → Bytes → Bytes) → Machine → ℕ × Machine
  unfolding read_found for_each
  read_files prog [] show m = (
    1,
    say
        (prog
          ++ text
              ": reading standard input is not supported on this demo machine; give a file name\n")
        m,
  )
  read_files prog (n ∷ names) show m =
      for_each (λ n m. read_found prog show n m (read_file cfg now m.fs (abs m n))) (n ∷ names) 0 m

  unfoldable pub cmd_cat : Bytes → List Bytes → Machine → ℕ × Machine
  unfolding cat_names read_files
  cmd_cat prog args m = read_files prog (cat_names args) (λ n content. content) m

  unfoldable pub head_tail_args : Bytes → Bool → LineArgs → Machine → ℕ × Machine
  unfolding read_files titled excerpt
  head_tail_args prog tail (bad_args msg) m =
      (1, say (prog ++ (text ": " ++ (msg ++ b'\n' ∷ []))) m)
  head_tail_args prog tail (lines_of n names) m =
      read_files prog names (λ f content. titled (ltb 1 (length names)) f (excerpt tail n content))
        m

  unfoldable pub head_tail : Bytes → Bool → List Bytes → Machine → ℕ × Machine
  unfolding line_args head_tail_args
  head_tail prog tail args m = head_tail_args prog tail (line_args 10 [] args) m
