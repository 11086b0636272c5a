-- ===== src/Vfs/Dirs/Keeps.antt =====
-- The recursions of `Mkdir` and `Remove` keep the overlay within its limits.
use scomp_agent.Common.{
  equal, ℕ, zero, suc, ◌+◌, Bool, true, false, not, ◌&&◌, Option, none, some, List, [], ◌∷◌, arith,
  ltb, if◌then◌else◌, Bytes, length, length-erase,
}
use scomp_agent.Vfs.Paths.{dir}
use scomp_agent.Vfs.Tree.{Config, not_empty, Result, ok, err, Fs, stat}
use scomp_agent.Vfs.Write.{make_dir, remove_stat, remove_file}
use scomp_agent.Vfs.Write.Quota.{IsValid, After, make_stat-IsValid, AfterSome, remove_stat-IsValid}
use scomp_agent.Vfs.Dirs.{
  mkdir, End, done, out_of_fuel, failed, ended, and_then, read_dir, is_dir, make_parents,
  children_of, each, drop_dir, remove_dir, remove_with, remove_from, remove,
}

module _ (cfg : Config) where
  abbrev Holds : Fs × End → Type 0
  Holds r = IsValid cfg r.0

  Holds-ended : (f : Fs) (r : Result Fs) → IsValid cfg f → After cfg r → Holds (ended f r)
  unfolding ended
  Holds-ended f (ok f') v h = h
  Holds-ended f (err e) v h = v

  Holds-and_then :
      (r : Fs × End) (next : Fs → Fs × End)
      → Holds r
      → ((f : Fs) → IsValid cfg f → Holds (next f))
      → Holds (and_then r next)
  unfolding and_then
  Holds-and_then (f, done) next v h = h f v
  Holds-and_then (f, out_of_fuel) next v h = v
  Holds-and_then (f, failed e) next v h = v

  Holds-if : (b : Bool) (x y : Fs × End) → Holds x → Holds y → Holds (if b then x else y)
  Holds-if true x y h k = h
  Holds-if false x y h k = k

  Holds-make_dir :
      (now : ℕ) (f : Fs) (p : Bytes) → IsValid cfg f → Holds (ended f (make_dir cfg now f p))
  unfolding make_dir
  Holds-make_dir now f p v = Holds-ended f _ v (make_stat-IsValid cfg now f p (stat cfg now f p) v)

  Holds-make_parents :
      (fuel now : ℕ) (f : Fs) (p : Bytes) → IsValid cfg f → Holds (make_parents cfg fuel now f p)
  unfolding make_parents
  Holds-make_parents zero now f p v = v
  Holds-make_parents (suc fuel) now f p v =
      Holds-if (is_dir cfg now f p) (f, done) _ v
        (Holds-if (not (equal (dir p) p) && not (is_dir cfg now f (dir p))) _
          (ended f (make_dir cfg now f p))
          (Holds-and_then (make_parents cfg fuel now f (dir p)) _
            (Holds-make_parents fuel now f (dir p) v) λ f' v'. Holds-make_dir now f' p v')
          (Holds-make_dir now f p v))

  pub mkdir-IsValid :
      (now : ℕ) (f : Fs) (p : Bytes) (parents : Bool)
      → IsValid cfg f
      → IsValid cfg (mkdir cfg now f p parents).0
  unfolding mkdir
  mkdir-IsValid now f p true v = Holds-make_parents (length p + 2) now f p v
  mkdir-IsValid now f p false v = Holds-make_dir now f p v

  Holds-each :
      (call : Fs → Bytes → Fs × End) (f : Fs) (cs : List Bytes)
      → ((f : Fs) (c : Bytes) → IsValid cfg f → Holds (call f c))
      → IsValid cfg f
      → Holds (each call f cs)
  unfolding each
  Holds-each call f [] h v = v
  Holds-each call f (c ∷ cs) h v =
      Holds-and_then (call f c) _ (h f c v) λ f' v'. Holds-each call f' cs h v'

  Holds-drop_dir : (p : Bytes) (f : Fs) → IsValid cfg f → Holds (drop_dir p f)
  Holds-drop_dir p f v = record {
    unique = v.unique;
    counted = v.counted;
    bytes_le = v.bytes_le;
    entries_le = omega (arith, v.entries_le, length-erase p f.dirs);
  }

  Holds-remove_with :
      (call : Fs → Bytes → Fs × End) (recursive : Bool) (now : ℕ) (f : Fs) (p : Bytes)
      (o : Option (Result Fs))
      → ((f : Fs) (c : Bytes) → IsValid cfg f → Holds (call f c))
      → IsValid cfg f
      → AfterSome cfg o
      → Holds (remove_with cfg call recursive now f p o)
  unfolding remove_with remove_dir
  Holds-remove_with call recursive now f p (some r) h v after = Holds-ended f r v after
  Holds-remove_with call recursive now f p none h v after =
      let children = children_of (read_dir cfg now f p) in
      Holds-if (ltb 0 (length children) && not recursive) (f, failed not_empty) _ v
        (Holds-and_then (each call f children) (drop_dir p) (Holds-each call f children h v)
          (Holds-drop_dir p))

  Holds-remove_from :
      (fuel now : ℕ) (f : Fs) (recursive : Bool) (p : Bytes)
      → IsValid cfg f
      → Holds (remove_from cfg fuel now f recursive p)
  unfolding remove_from remove_file
  Holds-remove_from zero now f recursive p v = v
  Holds-remove_from (suc fuel) now f recursive p v =
      Holds-remove_with (λ f c. remove_from cfg fuel now f true c) recursive now f p
        (remove_stat cfg f p (stat cfg now f p)) (λ f c v. Holds-remove_from fuel now f true c v) v
        (remove_stat-IsValid cfg f p (stat cfg now f p) v)

  pub remove-IsValid :
      (now : ℕ) (f : Fs) (p : Bytes) (recursive : Bool)
      → IsValid cfg f
      → IsValid cfg (remove cfg now f p recursive).0
  unfolding remove
  remove-IsValid now f p recursive v = Holds-remove_from (length f.dirs + 1) now f recursive p v
