-- ===== src/Vfs/Dirs.antt =====
-- fakeshell/vfs/vfs.go: listing a directory, and the recursions of `Mkdir` and `Remove`.
pub mod Above
pub mod Parents
pub mod Keeps
mod Tests
use scomp_agent.Common.{
  equal, erase, ℕ, zero, suc, ◌+◌, ◌-◌, ◌/◌, Bool, true, false, not, ◌&&◌, Option, none, some, List,
  [], ◌∷◌, ◌++◌, ltb, ◌==◌, if◌then◌else◌, Bytes, length, Map,
}
use scomp_agent.Vfs.Paths.{dir, clean, base, slash, base_path}
use scomp_agent.Vfs.Tree.{
  Config, FsError, not_dir, permission, not_empty, Result, ok, err, Info, Base, Fs, is_private,
  stat,
}
use scomp_agent.Vfs.Write.{make_dir, remove_file}

-- Names in the order of their bytes.
unfoldable pub less : Bytes → Bytes → Bool
less [] [] = false
less [] (b ∷ q) = true
less (b ∷ p) [] = false
less (b ∷ p) (c ∷ q) = if b == c then less p q else ltb b c

unfoldable pub sorted_in : Info → List Info → List Info
unfolding less
sorted_in i [] = i ∷ []
sorted_in i (j ∷ js) =
    let rest = sorted_in i js in if less j.name i.name then j ∷ rest else i ∷ j ∷ js

unfoldable pub sort_by_name : List Info → List Info
unfolding sorted_in
sort_by_name [] = []
sort_by_name (i ∷ is) = sorted_in i (sort_by_name is)

has_name : List Bytes → Bytes → Bool
has_name [] n = false
has_name (m ∷ names) n = if equal m n then true else has_name names n

-- `names[n] = true`
unfoldable pub add_name : Bytes → List Bytes → List Bytes
unfolding has_name
add_name n names = if has_name names n then names else n ∷ names

-- The loop of `add`: the name below `p` on the way to `child`. An absolute path gets shorter in
-- each round.
unfoldable pub name_below : ℕ → Bytes → Bytes → Option Bytes
name_below zero p child = none
name_below (suc fuel) p child =
    let above = name_below fuel p (dir child) in
    if equal child slash then none else if equal (dir child) p then some (base child) else above

add_found : Option Bytes → List Bytes → List Bytes
unfolding add_name
add_found none names = names
add_found (some n) names = add_name n names

unfoldable pub add_paths : Bytes → List Bytes → List Bytes → List Bytes
unfolding name_below add_found
add_paths p [] names = names
add_paths p (child ∷ children) names =
    add_paths p children (add_found (name_below (length child) p child) names)

abbrev keys : {V : Type 0} → Map V → List Bytes
keys [] = []
keys ((k, v) ∷ m) = k ∷ keys m

-- `f.dirs` holds only true.
unfoldable pub join : Bytes → Bytes → Bytes
join p name = clean (p ++ b'/' ∷ name)

-- How a recursion ends; the tree comes with it, since it may have changed before an error.
pub data End : Type 0 where
  done out_of_fuel : End
  failed : FsError → End

-- A call that changes the tree only when it succeeds.
unfoldable pub ended : Fs → Result Fs → Fs × End
ended f (ok f') = (f', done)
ended f (err e) = (f, failed e)

-- What follows a call that succeeds.
unfoldable pub and_then : Fs × End → (Fs → Fs × End) → Fs × End
and_then (f, done) next = next f
and_then (f, out_of_fuel) next = (f, out_of_fuel)
and_then (f, failed e) next = (f, failed e)

with_stat : Result Info → List Info → List Info
with_stat (err e) out = out
with_stat (ok st) out = st ∷ out

pub is_dir_stat : Result Info → Bool
is_dir_stat (err e) = false
is_dir_stat (ok st) = st.is_dir

abbrev pub paths : List Info → List Bytes
paths [] = []
paths (i ∷ is) = i.path ∷ paths is

pub children_of : Result (List Info) → List Bytes
children_of (err e) = []
children_of (ok is) = paths is

-- The loop over the children, with the call for each of them.
unfoldable pub each : (Fs → Bytes → Fs × End) → Fs → List Bytes → Fs × End
unfolding and_then
each call f [] = (f, done)
each call f (c ∷ cs) = and_then (call f c) (λ f. each call f cs)

abbrev pub drop_dir : Bytes → Fs → Fs × End
drop_dir p f = (record f { dirs = erase p f.dirs; mtime = erase p f.mtime }, done)

-- `Remove` of a directory of the overlay, with the call for its children.
unfoldable pub remove_dir : (Fs → Bytes → Fs × End) → Bool → Fs → Bytes → List Bytes → Fs × End
unfolding each and_then
remove_dir call recursive f p children =
    if ltb 0 (length children) && not recursive
    then (f, failed not_empty)
    else and_then (each call f children) (drop_dir p)

module _ (cfg : Config) where
  base_names : Bytes → Option Base → List Bytes
  base_names p none = []
  base_names p (some b) = elim (b.names_of (base_path p)) [ none ↦ [] | some names ↦ names ]

  unfoldable pub names_in : Fs → Bytes → List Bytes
  unfolding base_names add_paths
  names_in f p =
      let names = base_names p cfg.base_tree in
      let names = add_paths p cfg.extra_dirs names in
      let names = add_paths p (keys cfg.generated) names in
      let names = add_paths p (keys cfg.static) names in
      let names = add_paths p (keys f.dirs) names in add_paths p (keys f.files) names

  unfoldable pub infos : ℕ → Fs → Bytes → List Bytes → List Info
  unfolding with_stat join
  infos now f p [] = []
  infos now f p (n ∷ names) = with_stat (stat cfg now f (join p n)) (infos now f p names)

  read_dir_stat : ℕ → Fs → Bytes → Result Info → Result (List Info)
  unfolding is_private names_in infos sort_by_name
  read_dir_stat now f p (err e) = err e
  read_dir_stat now f p (ok st) =
      if not st.is_dir
      then err not_dir
      else if is_private cfg p
      then err permission
      else ok (sort_by_name (infos now f p (names_in f p)))

  unfoldable pub read_dir : ℕ → Fs → Bytes → Result (List Info)
  unfolding read_dir_stat
  read_dir now f p = read_dir_stat now f p (stat cfg now f p)

  unfoldable pub is_dir : ℕ → Fs → Bytes → Bool
  unfolding is_dir_stat
  is_dir now f p = is_dir_stat (stat cfg now f p)

  -- `Mkdir` with `parents` true; the fuel is for the depth of the recursion.
  unfoldable pub make_parents : ℕ → ℕ → Fs → Bytes → Fs × End
  unfolding is_dir and_then ended
  make_parents zero now f p = (f, out_of_fuel)
  make_parents (suc fuel) now f p =
      let above = make_parents fuel now f (dir p) in
      if is_dir now f p
      then (f, done)
      else if not (equal (dir p) p) && not (is_dir now f (dir p))
      then and_then above (λ f. ended f (make_dir cfg now f p))
      else ended f (make_dir cfg now f p)

  unfoldable pub mkdir : ℕ → Fs → Bytes → Bool → Fs × End
  unfolding make_parents ended
  mkdir now f p parents =
      if parents then make_parents (length p + 2) now f p else ended f (make_dir cfg now f p)

  pub remove_with : (Fs → Bytes → Fs × End) → Bool → ℕ → Fs → Bytes → Option (Result Fs) → Fs × End
  unfolding remove_dir children_of read_dir ended
  remove_with call recursive now f p (some r) = ended f r
  remove_with call recursive now f p none =
      remove_dir call recursive f p (children_of (read_dir now f p))

  unfoldable pub remove_from : ℕ → ℕ → Fs → Bool → Bytes → Fs × End
  unfolding remove_with remove_file
  remove_from zero now f recursive p = (f, out_of_fuel)
  remove_from (suc fuel) now f recursive p =
      remove_with (λ f c. remove_from fuel now f true c) recursive now f p (remove_file cfg now f p)

  -- The fuel is for the depth of the recursion, which the directories of the overlay bound.
  unfoldable pub remove : ℕ → Fs → Bytes → Bool → Fs × End
  unfolding remove_from
  remove now f p recursive = remove_from (length f.dirs + 1) now f recursive p
