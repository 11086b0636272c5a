-- ===== src/Vfs/Dirs/Parents.antt =====
-- `Mkdir` with the parents of a path.
use scomp_agent.Common.{
  equal, lookup, ℕ, zero, suc, ◌+◌, ◌<◌, ◌≡◌, refl, sym, ap, ◌∙◌, ◌≢◌, inl, inr, Bool, true, false,
  not, ◌&&◌, Option, none, some, List, [], ◌∷◌, arith, ◌==◌, if◌then◌else◌, Option-cases, Bytes,
  length, equal_refl, lookup-set,
}
use mathlib.Core.Path.{subst}
use scomp_agent.Vfs.Dirs.Above.{dir-joined, dir_root, dir_of_dot, dir_empty, climbs, length-joined}
use scomp_agent.Vfs.Paths.{joined, dot, dir, resolve}
use scomp_agent.Vfs.Resolve.{AllNames, resolve-IsClean}
use scomp_agent.Vfs.Tree.{
  FsError, exist, invalid, Result, ok, err, Info, Config, Fs, is_set, stat_file, stat,
}
use scomp_agent.Vfs.Write.{check_create, make_checked, make_stat, make_dir}
use scomp_agent.Vfs.Dirs.{
  End, done, out_of_fuel, failed, ended, and_then, is_dir_stat, is_dir, make_parents, mkdir,
}

some_length : (p : Bytes) → (suc (length p) == 0) ≡ false
some_length p = ground arith

module _ (cfg : Config) (now : ℕ) where
  -- The recursion ended, and with a directory if it succeeded.
  abbrev Good : Bytes → Fs × End → Type 0
  Good p r = (r.1 ≢ out_of_fuel) × (r.1 ≡ done → is_dir cfg now r.0 p ≡ true)

  Good-if :
      (p : Bytes) (b : Bool) (x y : Fs × End)
      → (b ≡ true → Good p x)
      → (b ≡ false → Good p y)
      → Good p (if b then x else y)
  Good-if p true x y h k = h refl
  Good-if p false x y h k = k refl

  Good-failed : (p : Bytes) (f : Fs) (e : FsError) → Good p (f, failed e)
  Good-failed p f e = ((λ x. cc), λ x. cc)

  -- A directory of the overlay that no file stands in the way of.
  is_dir_set :
      (f : Fs) (b : ℕ) (p : Bytes)
      → lookup (b ∷ p) f.files ≡ none
      → is_set (lookup (b ∷ p) f.dirs) ≡ true
      → is_dir cfg now f (b ∷ p) ≡ true
  unfolding is_dir stat stat_file is_dir_stat
  is_dir_set f b p free set_up = rw (some_length p, free, set_up) refl

  no_file :
      (f : Fs) (b : ℕ) (p : Bytes) (e : FsError)
      → stat cfg now f (b ∷ p) ≡ err e
      → lookup (b ∷ p) f.files ≡ none
  unfolding stat stat_file
  no_file f b p e h = elim (Option-cases (lookup (b ∷ p) f.files)) [
    | inl gone ↦ gone
    | inr (c, here) ↦
        let found : stat cfg now f (b ∷ p) ≡ stat_file cfg now f (b ∷ p) (some c) =
          rw (some_length p, here) refl in
        let clash : stat_file cfg now f (b ∷ p) (some c) ≡ err e = sym found ∙ h in cc
  ]

  Good-make_checked :
      (f : Fs) (b : ℕ) (p : Bytes) (o : Option FsError)
      → lookup (b ∷ p) f.files ≡ none
      → Good (b ∷ p) (ended f (make_checked cfg now f (b ∷ p) o))
  unfolding ended make_checked
  Good-make_checked f b p (some e) free = Good-failed (b ∷ p) f e
  Good-make_checked f b p none free =
      ((λ x. cc), λ x. is_dir_set _ b p free (rw lookup-set (rw (equal_refl (b ∷ p)) refl)))

  Good-make_stat :
      (f : Fs) (b : ℕ) (p : Bytes) (r : Result Info)
      → stat cfg now f (b ∷ p) ≡ r
      → Good (b ∷ p) (ended f (make_stat cfg now f (b ∷ p) r))
  unfolding ended make_stat
  Good-make_stat f b p (ok st) h = Good-failed (b ∷ p) f exist
  Good-make_stat f b p (err e) h =
      Good-make_checked f b p (check_create cfg now f (b ∷ p)) (no_file f b p e h)

  Good-and_then :
      (p : Bytes) (r : Fs × End) (next : Fs → Fs × End)
      → (r.1 ≢ out_of_fuel)
      → ((f : Fs) → Good p (next f))
      → Good p (and_then r next)
  unfolding and_then
  Good-and_then p (f, done) next h k = k f
  Good-and_then p (f, out_of_fuel) next h k = absurd (h refl)
  Good-and_then p (f, failed e) next h k = Good-failed p f e

  abbrev path_of : List Bytes → Bytes
  path_of out = b'/' ∷ joined [] out

  Good-make_dir :
      (out : List Bytes) (f : Fs) → Good (path_of out) (ended f (make_dir cfg now f (path_of out)))
  unfolding make_dir
  Good-make_dir out f = Good-make_stat f b'/' (joined [] out) (stat cfg now f (path_of out)) refl

  -- The round above ends, unless the path is the root.
  above-Ends :
      (out : List Bytes) (fuel : ℕ) (f : Fs)
      → ((es : List Bytes)
          → AllNames es
          → length es < fuel
          → (make_parents cfg fuel now f (path_of es)).1 ≢ out_of_fuel)
      → AllNames out
      → length out < suc fuel
      → equal (dir (path_of out)) (path_of out) ≡ false
      → (make_parents cfg fuel now f (dir (path_of out))).1 ≢ out_of_fuel
  unfolding joined equal
  above-Ends [] fuel f ih h lt up =
      let same : equal (dir (path_of [])) (path_of []) ≡ true =
        ap (λ q. equal q (path_of [])) dir_root in
      let clash : true ≡ false = sym same ∙ up in cc
  above-Ends (e ∷ es) fuel f ih h lt up =
      subst (λ q. (make_parents cfg fuel now f q).1 ≢ out_of_fuel) (sym (dir-joined e es h))
        (ih es h.1 (omega (arith, lt)))

  Good-make_parents :
      (out : List Bytes) (fuel : ℕ) (f : Fs)
      → AllNames out
      → length out < fuel
      → Good (path_of out) (make_parents cfg fuel now f (path_of out))
  unfolding make_parents
  Good-make_parents out zero f h lt = absurd (omega (arith, lt))
  Good-make_parents out (suc fuel) f h lt =
      Good-if (path_of out) (is_dir cfg now f (path_of out)) (f, done) _
        (λ here. ((λ x. cc), λ x. here))
        λ missing.
          Good-if (path_of out)
            (not (equal (dir (path_of out)) (path_of out))
              && not (is_dir cfg now f (dir (path_of out))))
            _ (ended f (make_dir cfg now f (path_of out)))
            (λ up.
              Good-and_then (path_of out) _ (λ f. ended f (make_dir cfg now f (path_of out)))
                (above-Ends out fuel f (λ es h lt. (Good-make_parents es fuel f h lt).0) h lt
                  (climbs (equal (dir (path_of out)) (path_of out))
                    (not (is_dir cfg now f (dir (path_of out)))) up))
                (Good-make_dir out))
            (λ top. Good-make_dir out f)

  ends_ended : (f : Fs) (r : Result Fs) → (ended f r).1 ≢ out_of_fuel
  unfolding ended
  ends_ended f (ok f') = λ x. cc
  ends_ended f (err e) = λ x. cc

  if-Ends :
      (b : Bool) (x y : Fs × End)
      → x.1 ≢ out_of_fuel
      → y.1 ≢ out_of_fuel
      → (if b then x else y).1 ≢ out_of_fuel
  if-Ends true x y h k = h
  if-Ends false x y h k = k

  -- The directory `.` is its own parent.
  dot-Ends : (fuel : ℕ) (f : Fs) → (make_parents cfg (suc fuel) now f dot).1 ≢ out_of_fuel
  unfolding make_parents equal
  dot-Ends fuel f =
      let top : equal (dir dot) dot ≡ true = ap (λ q. equal q dot) dir_of_dot in
      if-Ends (is_dir cfg now f dot) (f, done) _ (λ x. cc)
        (rw top (ends_ended f (make_dir cfg now f dot)))

  -- The empty path is refused, behind the directory `.`.
  Good-empty : (f : Fs) → Good [] (make_parents cfg 2 now f [])
  unfolding make_parents make_dir make_stat make_checked check_create stat is_dir is_dir_stat ended
  Good-empty f =
      Good-if [] (not (equal (dir []) []) && not (is_dir cfg now f (dir []))) _ _
        (λ up. Good-and_then [] _ _ (rw dir_empty (dot-Ends 0 f)) λ f. Good-failed [] f invalid)
        λ top. Good-failed [] f invalid

  -- `mkdir -p` of whatever `Resolve` answers always ends within its fuel, which is the length of the
  -- path and two, whatever the tree holds; and where it reports no error, the path is a directory.
  pub mkdir_parents :
      (f : Fs) (cwd q : Bytes)
      → let p = resolve cwd q in
        ((mkdir cfg now f p true).1 ≢ out_of_fuel)
        × ((mkdir cfg now f p true).1 ≡ done → is_dir cfg now (mkdir cfg now f p true).0 p ≡ true)
  unfolding mkdir
  mkdir_parents f cwd q = elim (resolve-IsClean cwd q) [
    | inl (nul, gone) ↦ rw gone (Good-empty f)
    | inr (plain, (out, names, same)) ↦
        subst (λ p. Good p (make_parents cfg (length p + 2) now f p)) (sym same)
          (Good-make_parents out (length (path_of out) + 2) f names
            (omega (arith, length-joined [] out names)))
  ]
