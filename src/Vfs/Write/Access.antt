-- ===== src/Vfs/Write/Access.antt =====
-- fakeshell/vfs/vfs.go: what `WriteFile` may replace, and that its file is read back.
use scomp_agent.Common.{
  lookup, ℕ, ◌≡◌, refl, ◌⊎◌, inl, inr, true, false, Option, none, some, arith, ◌==◌, Bytes, length,
  equal_refl, lookup-set,
}
use scomp_agent.Vfs.Paths.{dir}
use scomp_agent.Vfs.Tree.{
  FsError, Result, ok, err, Info, Config, Fs, has, stat, stat_file, is_private, read_file,
  read_stat, read_found,
}
use scomp_agent.Vfs.Write.{
  is_writable, check_parent, check_create, store, store_checked, write_new, write_over, write_file,
}

module _ (cfg : Config) where
  store-lookup :
      (now : ℕ) (f : Fs) (p content : Bytes) (old : ℕ) (f' : Fs)
      → store cfg now f p content old ≡ ok f'
      → lookup p f'.files ≡ some content
  unfolding store
  store-lookup now f p content old f' e =
      ground (arith, lookup-set p p content f.files, equal_refl p)

  store_checked-lookup :
      (now : ℕ) (f : Fs) (p content : Bytes) (o : Option FsError) (f' : Fs)
      → store_checked cfg now f p content o ≡ ok f'
      → lookup p f'.files ≡ some content
  unfolding store_checked
  store_checked-lookup now f p content (some x) f' e = ground arith
  store_checked-lookup now f p content none f' e = store-lookup now f p content 0 f' e

  write_new-lookup :
      (now : ℕ) (f : Fs) (p content : Bytes) (r : Result Info) (f' : Fs)
      → write_new cfg now f p content r ≡ ok f'
      → lookup p f'.files ≡ some content
  unfolding write_new
  write_new-lookup now f p content (ok st) f' e = ground arith
  write_new-lookup now f p content (err x) f' e =
      store_checked-lookup now f p content (check_create cfg now f p) f' e

  write_over-lookup :
      (now : ℕ) (f : Fs) (p content : Bytes) (o : Option Bytes) (f' : Fs)
      → write_over cfg now f p content o ≡ ok f'
      → lookup p f'.files ≡ some content
  unfolding write_over
  write_over-lookup now f p content (some old) f' e = store-lookup now f p content (length old) f' e
  write_over-lookup now f p content none f' e =
      write_new-lookup now f p content (stat cfg now f p) f' e

  stored-read :
      (later : ℕ) (f : Fs) (p content : Bytes)
      → lookup p f.files ≡ some content
      → (length p == 0) ≡ false
      → is_private cfg p ≡ false
      → read_file cfg later f p ≡ ok content
  unfolding read_file stat stat_file read_stat read_found
  stored-read later f p content at ne allowed = ground (arith, at, ne, allowed)

  -- A file that was written is read back, at any later time, unless its path is private.
  pub read_file-write_file :
      (now later : ℕ) (f : Fs) (p content : Bytes) (f' : Fs)
      → write_file cfg now f p content ≡ ok f'
      → (length p == 0) ≡ false
      → is_private cfg p ≡ false
      → read_file cfg later f' p ≡ ok content
  unfolding write_file
  read_file-write_file now later f p content f' e ne allowed =
      stored-read later f' p content (write_over-lookup now f p content (lookup p f.files) f' e) ne
        allowed

  -- Nothing stands at `p`, and the user may write beside it.
  abbrev pub MayCreate : ℕ → Fs → Bytes → Type 0
  MayCreate now f p =
      ((e : FsError) × (stat cfg now f p ≡ err e))
      × (is_writable cfg (dir p) ≡ true)
      × (is_private cfg (dir p) ≡ false)

  check_parent_allowed :
      (f : Fs) (parent : Bytes) (r : Result Info)
      → check_parent cfg f parent r ≡ none
      → (is_writable cfg parent ≡ true) × (is_private cfg parent ≡ false)
  unfolding check_parent
  check_parent_allowed f parent (err x) e = ground arith
  check_parent_allowed f parent (ok st) e = ground arith

  check_create_allowed :
      (now : ℕ) (f : Fs) (p : Bytes)
      → check_create cfg now f p ≡ none
      → (is_writable cfg (dir p) ≡ true) × (is_private cfg (dir p) ≡ false)
  unfolding check_create
  check_create_allowed now f p e =
      check_parent_allowed f (dir p) (stat cfg now f (dir p)) (ground arith)

  store_checked-none :
      (now : ℕ) (f : Fs) (p content : Bytes) (o : Option FsError) (f' : Fs)
      → store_checked cfg now f p content o ≡ ok f'
      → o ≡ none
  unfolding store_checked
  store_checked-none now f p content (some x) f' e = ground arith
  store_checked-none now f p content none f' e = refl

  write_new-MayCreate :
      (now : ℕ) (f : Fs) (p content : Bytes) (r : Result Info) (f' : Fs)
      → stat cfg now f p ≡ r
      → write_new cfg now f p content r ≡ ok f'
      → MayCreate now f p
  unfolding write_new
  write_new-MayCreate now f p content (ok st) f' at e = ground arith
  write_new-MayCreate now f p content (err x) f' at e =
      let allowed =
        check_create_allowed now f p
          (store_checked-none now f p content (check_create cfg now f p) f' e) in
      ((x, at), allowed.0, allowed.1)

  write_over-MayCreate :
      (now : ℕ) (f : Fs) (p content : Bytes) (o : Option Bytes) (f' : Fs)
      → write_over cfg now f p content o ≡ ok f'
      → (has o ≡ true) ⊎ MayCreate now f p
  unfolding write_over
  write_over-MayCreate now f p content (some old) f' e = inl refl
  write_over-MayCreate now f p content none f' e =
      inr (write_new-MayCreate now f p content (stat cfg now f p) f' refl e)

  -- `WriteFile` replaces only files that the session wrote itself. Where it creates one, nothing
  -- stood at the path before, neither in the base tree nor generated, and the directory above it is
  -- writable for the user and not private.
  pub write_file-MayCreate :
      (now : ℕ) (f : Fs) (p content : Bytes) (f' : Fs)
      → write_file cfg now f p content ≡ ok f'
      → (has (lookup p f.files) ≡ true) ⊎ MayCreate now f p
  unfolding write_file
  write_file-MayCreate now f p content f' e =
      write_over-MayCreate now f p content (lookup p f.files) f' e
