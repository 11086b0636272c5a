-- ===== src/Vfs/Write.antt =====
-- fakeshell/vfs/vfs.go: the operations of `FS` that change one entry.
pub mod Quota
pub mod Runs
pub mod Access
mod Tests
use scomp_agent.Common.{
  equal, lookup, erase, ℕ, ◌+◌, ◌-◌, ◌/◌, Bool, true, false, not, ◌||◌, Option, none, some, [], ltb,
  leb, ◌==◌, if◌then◌else◌, Bytes, length, set, text,
}
use scomp_agent.Vfs.Paths.{dir}
use scomp_agent.Vfs.Tree.{
  FsError, not_exist, exist, not_dir, is_dir_error, permission, no_space, invalid, Result, ok, err,
  Info, Config, Fs, has, is_set, under_any, is_private, stat,
}

module _ (cfg : Config) where
  unfoldable pub is_writable : Bytes → Bool
  unfolding under_any
  is_writable d = if equal cfg.user (text "root") then true else under_any cfg.writable d

  -- `checkCreate` behind the `Stat` of the parent; `none` is no error.
  pub check_parent : Fs → Bytes → Result Info → Option FsError
  unfolding is_writable is_private
  check_parent f parent (err e) = some not_exist
  check_parent f parent (ok st) =
      if not st.is_dir
      then some not_dir
      else if not (is_writable parent) || is_private cfg parent
      then some permission
      else if leb cfg.max_entries (length f.files + length f.dirs)
      then some no_space
      else none

  unfoldable pub check_create : ℕ → Fs → Bytes → Option FsError
  unfolding check_parent stat
  check_create now f p =
      if length p == 0 || equal p (text "/")
      then some invalid
      else check_parent f (dir p) (stat cfg now f (dir p))

  -- The end of `WriteFile`; `old` is the length of what it replaces.
  pub store : ℕ → Fs → Bytes → Bytes → ℕ → Result Fs
  store now f p content old =
      if ltb cfg.max_bytes (f.used - old + length content)
      then err no_space
      else ok (record {
        files = set p content f.files;
        dirs = f.dirs;
        mtime = set p now f.mtime;
        used = f.used + length content - old;
      })

  pub store_checked : ℕ → Fs → Bytes → Bytes → Option FsError → Result Fs
  unfolding store
  store_checked now f p content (some e) = err e
  store_checked now f p content none = store now f p content 0

  pub write_new : ℕ → Fs → Bytes → Bytes → Result Info → Result Fs
  unfolding store_checked check_create
  write_new now f p content (ok st) = if st.is_dir then err is_dir_error else err permission
  write_new now f p content (err e) = store_checked now f p content (check_create now f p)

  pub write_over : ℕ → Fs → Bytes → Bytes → Option Bytes → Result Fs
  unfolding store write_new stat
  write_over now f p content (some old) = store now f p content (length old)
  write_over now f p content none = write_new now f p content (stat cfg now f p)

  unfoldable pub write_file : ℕ → Fs → Bytes → Bytes → Result Fs
  unfolding write_over
  write_file now f p content = write_over now f p content (lookup p f.files)

  pub touch_stat : ℕ → Fs → Bytes → Result Info → Result Fs
  unfolding write_file is_writable
  touch_stat now f p (err e) = write_file now f p []
  touch_stat now f p (ok st) =
      if has (lookup p f.files) || is_set (lookup p f.dirs)
      then ok (record f { mtime = set p now f.mtime })
      else if not (is_writable (dir p))
      then err permission
      else ok f

  unfoldable pub touch : ℕ → Fs → Bytes → Result Fs
  unfolding touch_stat stat
  touch now f p = touch_stat now f p (stat cfg now f p)

  unfoldable pub make_checked : ℕ → Fs → Bytes → Option FsError → Result Fs
  make_checked now f p (some e) = err e
  make_checked now f p none = ok (record f { dirs = set p true f.dirs; mtime = set p now f.mtime })

  unfoldable pub make_stat : ℕ → Fs → Bytes → Result Info → Result Fs
  unfolding make_checked check_create
  make_stat now f p (ok st) = err exist
  make_stat now f p (err e) = make_checked now f p (check_create now f p)

  -- `Mkdir` with `parents` false.
  unfoldable pub make_dir : ℕ → Fs → Bytes → Result Fs
  unfolding make_stat stat
  make_dir now f p = make_stat now f p (stat cfg now f p)

  unfoldable pub remove_found : Fs → Bytes → Option Bytes → Option (Result Fs)
  remove_found f p (some content) = some (
      ok (record f {
        files = erase p f.files;
        mtime = erase p f.mtime;
        used = f.used - length content;
      }))
  remove_found f p none = if not (is_set (lookup p f.dirs)) then some (err permission) else none

  unfoldable pub remove_stat : Fs → Bytes → Result Info → Option (Result Fs)
  unfolding remove_found
  remove_stat f p (err e) = some (err e)
  remove_stat f p (ok st) = remove_found f p (lookup p f.files)

  -- `Remove` of everything but a directory of the overlay, for which this is `none`.
  unfoldable pub remove_file : ℕ → Fs → Bytes → Option (Result Fs)
  unfolding remove_stat stat
  remove_file now f p = remove_stat f p (stat cfg now f p)
