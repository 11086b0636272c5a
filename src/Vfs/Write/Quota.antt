-- ===== src/Vfs/Write/Quota.antt =====
-- fakeshell/vfs/vfs.go: the overlay stays within its limits.
use scomp_agent.Common.{
  lookup, erase, ℕ, ◌+◌, ◌-◌, ◌≤◌, ◌<◌, ◌≡◌, refl, Bool, true, false, not, ◌||◌, Option, none, some,
  [], arith, ltb, if◌then◌else◌, ltb→le, Bytes, length, Map, set, lookup-erase_same, Unique,
  erase-Unique, length-erase, length-erase_found, weigh, weigh_found, weigh-erase,
}
use scomp_agent.Vfs.Paths.{dir}
use scomp_agent.Vfs.Tree.{
  no_space, has, is_dir_error, is_set, permission, FsError, Result, ok, err, Info, Config, Fs, stat,
}
use scomp_agent.Vfs.Write.{
  is_writable, check_parent, check_create, store, store_checked, write_new, write_over, write_file,
  touch_stat, make_checked, make_stat, remove_found, remove_stat,
}

-- `used` counts the bytes of the files, and neither they nor the entries are more than allowed.
pub record IsValid (cfg : Config) (f : Fs) : Type 0 where
  pub unique : Unique f.files
  pub counted : weigh length f.files ≡ f.used
  pub bytes_le : f.used ≤ cfg.max_bytes
  pub entries_le : length f.files + length f.dirs ≤ cfg.max_entries

-- What holds of the tree that an operation leaves, if it succeeds.
abbrev pub After : Config → Result Fs → Type 0
After cfg (ok f) = IsValid cfg f
After cfg (err e) = Unit

module _ (cfg : Config) where
  After-if :
      (b : Bool) (x y : Result Fs)
      → (b ≡ true → After cfg x)
      → (b ≡ false → After cfg y)
      → After cfg (if b then x else y)
  After-if true x y h k = h refl
  After-if false x y h k = k refl

  store-IsValid :
      (now : ℕ) (f : Fs) (p content : Bytes) (old : ℕ)
      → IsValid cfg f
      → weigh_found length (lookup p f.files) ≡ old
      → length (erase p f.files) + length f.dirs < cfg.max_entries
      → After cfg (store cfg now f p content old)
  unfolding store
  store-IsValid now f p content old v at room =
      After-if (ltb cfg.max_bytes (f.used - old + length content)) (err no_space)
        (ok (record {
          files = set p content f.files;
          dirs = f.dirs;
          mtime = set p now f.mtime;
          used = f.used + length content - old;
        }))
        (λ full. tt)
        λ fits. record {
          unique = (lookup-erase_same p f.files, erase-Unique p f.files v.unique);
          counted = omega (arith, weigh-erase length p f.files v.unique, at, v.counted);
          bytes_le =
              omega (arith, ltb→le _ _ fits, weigh-erase length p f.files v.unique, at, v.counted);
          entries_le = omega (arith, room);
        }

  check_parent-room :
      (f : Fs) (parent : Bytes) (r : Result Info)
      → check_parent cfg f parent r ≡ none
      → length f.files + length f.dirs < cfg.max_entries
  unfolding check_parent
  check_parent-room f parent (err e) h = ground arith
  check_parent-room f parent (ok st) h = ground arith

  check_create-room :
      (now : ℕ) (f : Fs) (p : Bytes)
      → check_create cfg now f p ≡ none
      → length f.files + length f.dirs < cfg.max_entries
  unfolding check_create
  check_create-room now f p h = check_parent-room f (dir p) (stat cfg now f (dir p)) (ground arith)

  store_checked-IsValid :
      (now : ℕ) (f : Fs) (p content : Bytes) (o : Option FsError)
      → IsValid cfg f
      → lookup p f.files ≡ none
      → (o ≡ none → length f.files + length f.dirs < cfg.max_entries)
      → After cfg (store_checked cfg now f p content o)
  unfolding store_checked
  store_checked-IsValid now f p content (some e) v gone h = tt
  store_checked-IsValid now f p content none v gone h =
      store-IsValid now f p content 0 v (rw gone) (omega (arith, length-erase p f.files, h refl))

  write_new-IsValid :
      (now : ℕ) (f : Fs) (p content : Bytes) (r : Result Info)
      → IsValid cfg f
      → lookup p f.files ≡ none
      → After cfg (write_new cfg now f p content r)
  unfolding write_new
  write_new-IsValid now f p content (ok st) v gone =
      After-if st.is_dir (err is_dir_error) (err permission) (λ d. tt) λ d. tt
  write_new-IsValid now f p content (err e) v gone =
      store_checked-IsValid now f p content (check_create cfg now f p) v gone
        (check_create-room now f p)

  write_over-IsValid :
      (now : ℕ) (f : Fs) (p content : Bytes) (o : Option Bytes)
      → IsValid cfg f
      → lookup p f.files ≡ o
      → After cfg (write_over cfg now f p content o)
  unfolding write_over
  write_over-IsValid now f p content (some old) v at =
      store-IsValid now f p content (length old) v (rw at)
        (omega (arith, length-erase_found p old f.files at, v.entries_le))
  write_over-IsValid now f p content none v at =
      write_new-IsValid now f p content (stat cfg now f p) v at

  pub write_file-IsValid :
      (now : ℕ) (f : Fs) (p content : Bytes)
      → IsValid cfg f
      → After cfg (write_file cfg now f p content)
  unfolding write_file
  write_file-IsValid now f p content v =
      write_over-IsValid now f p content (lookup p f.files) v refl

  same-IsValid : (f : Fs) (m : Map ℕ) → IsValid cfg f → IsValid cfg (record f { mtime = m })
  same-IsValid f m v = record {
    unique = v.unique;
    counted = v.counted;
    bytes_le = v.bytes_le;
    entries_le = v.entries_le;
  }

  pub touch_stat-IsValid :
      (now : ℕ) (f : Fs) (p : Bytes) (r : Result Info)
      → IsValid cfg f
      → After cfg (touch_stat cfg now f p r)
  unfolding touch_stat
  touch_stat-IsValid now f p (err e) v = write_file-IsValid now f p [] v
  touch_stat-IsValid now f p (ok st) v =
      After-if (has (lookup p f.files) || is_set (lookup p f.dirs))
        (ok (record f { mtime = set p now f.mtime }))
        (if not (is_writable cfg (dir p)) then err permission else ok f)
        (λ own. same-IsValid f (set p now f.mtime) v)
        λ other.
          After-if (not (is_writable cfg (dir p))) (err permission) (ok f) (λ no. tt) λ yes. v

  make_checked-IsValid :
      (now : ℕ) (f : Fs) (p : Bytes) (o : Option FsError)
      → IsValid cfg f
      → (o ≡ none → length f.files + length f.dirs < cfg.max_entries)
      → After cfg (make_checked cfg now f p o)
  unfolding make_checked
  make_checked-IsValid now f p (some e) v h = tt
  make_checked-IsValid now f p none v h = record {
    unique = v.unique;
    counted = v.counted;
    bytes_le = v.bytes_le;
    entries_le = omega (arith, length-erase p f.dirs, h refl);
  }

  pub make_stat-IsValid :
      (now : ℕ) (f : Fs) (p : Bytes) (r : Result Info)
      → IsValid cfg f
      → After cfg (make_stat cfg now f p r)
  unfolding make_stat
  make_stat-IsValid now f p (ok st) v = tt
  make_stat-IsValid now f p (err e) v =
      make_checked-IsValid now f p (check_create cfg now f p) v (check_create-room now f p)

  -- `none` leaves the tree to the part of `Remove` that is not modelled.
  abbrev pub AfterSome : Option (Result Fs) → Type 0
  AfterSome none = Unit
  AfterSome (some r) = After cfg r

  AfterSome-if : (b : Bool) (e : FsError) → AfterSome (if b then some (err e) else none)
  AfterSome-if true e = tt
  AfterSome-if false e = tt

  remove_found-IsValid :
      (f : Fs) (p : Bytes) (o : Option Bytes)
      → IsValid cfg f
      → lookup p f.files ≡ o
      → AfterSome (remove_found cfg f p o)
  unfolding remove_found
  remove_found-IsValid f p (some content) v at = record {
    unique = erase-Unique p f.files v.unique;
    counted =
        (let weighed : weigh_found length (lookup p f.files) ≡ length content = rw at in
          omega (arith, weigh-erase length p f.files v.unique, weighed, v.counted));
    bytes_le = omega (arith, v.bytes_le);
    entries_le = omega (arith, length-erase p f.files, v.entries_le);
  }
  remove_found-IsValid f p none v at = AfterSome-if (not (is_set (lookup p f.dirs))) permission

  pub remove_stat-IsValid :
      (f : Fs) (p : Bytes) (r : Result Info) → IsValid cfg f → AfterSome (remove_stat cfg f p r)
  unfolding remove_stat
  remove_stat-IsValid f p (err e) v = tt
  remove_stat-IsValid f p (ok st) v = remove_found-IsValid f p (lookup p f.files) v refl
