-- ===== src/Vfs/Write/Runs.antt =====
-- fakeshell/vfs/vfs.go: a whole session's calls, and the limits they stay within.
use scomp_agent.Common.{ℕ, ◌+◌, ◌≤◌, ◌≡◌, refl, Bool, List, [], ◌∷◌, arith, Bytes, length, weigh}
use scomp_agent.Vfs.Tree.{Result, ok, err, Config, Fs, empty, reset, stat}
use scomp_agent.Vfs.Write.{write_file, touch_stat, touch}
use scomp_agent.Vfs.Dirs
use scomp_agent.Vfs.Dirs.{mkdir}
use scomp_agent.Vfs.Dirs.Keeps.{mkdir-IsValid, remove-IsValid}
use scomp_agent.Vfs.Write.Quota.{IsValid, After, write_file-IsValid, touch_stat-IsValid}

-- The calls of one shell session, each at its time.
pub data Op : Type 0 where
  refresh : ℕ → Bytes → Op
  make remove : ℕ → Bytes → Bool → Op
  fill : ℕ → Bytes → Bytes → Op
  clear : Op

-- An operation that fails leaves the tree alone, except for the recursions of `Mkdir` and `Remove`,
-- which may have changed it before.
abbrev pub settled : Fs → Result Fs → Fs
settled f (ok f') = f'
settled f (err e) = f

module _ (cfg : Config) where
  unfoldable pub apply : Fs → Op → Fs
  apply f (fill now p content) = settled f (write_file cfg now f p content)
  apply f (refresh now p) = settled f (touch cfg now f p)
  apply f (make now p parents) = (mkdir cfg now f p parents).0
  apply f (remove now p recursive) = (Dirs.remove cfg now f p recursive).0
  apply f clear = reset f

  unfoldable pub run : Fs → List Op → Fs
  run f [] = f
  run f (op ∷ ops) = run (apply f op) ops

  settled-IsValid :
      (f : Fs) (r : Result Fs) → IsValid cfg f → After cfg r → IsValid cfg (settled f r)
  settled-IsValid f (ok f') v h = h
  settled-IsValid f (err e) v h = v

  empty-IsValid : IsValid cfg empty
  empty-IsValid = record {
    unique = tt;
    counted = refl;
    bytes_le = omega arith;
    entries_le = omega arith;
  }

  apply-IsValid : (f : Fs) (op : Op) → IsValid cfg f → IsValid cfg (apply f op)
  unfolding apply touch
  apply-IsValid f (fill now p content) v =
      settled-IsValid f (write_file cfg now f p content) v
        (write_file-IsValid cfg now f p content v)
  apply-IsValid f (refresh now p) v =
      settled-IsValid f (touch_stat cfg now f p (stat cfg now f p)) v
        (touch_stat-IsValid cfg now f p (stat cfg now f p) v)
  apply-IsValid f (make now p parents) v = mkdir-IsValid cfg now f p parents v
  apply-IsValid f (remove now p recursive) v = remove-IsValid cfg now f p recursive v
  apply-IsValid f clear v = empty-IsValid

  keeps-IsValid : (ops : List Op) (f : Fs) → IsValid cfg f → IsValid cfg (run f ops)
  unfolding run
  keeps-IsValid [] f v = v
  keeps-IsValid (op ∷ ops) f v = keeps-IsValid ops (apply f op) (apply-IsValid f op v)

  -- Whatever a session writes, creates, touches, removes and resets, recursively or not, the overlay never holds more
  -- bytes or more entries than its configuration allows, and `used` is the number of its bytes.
  pub run_within :
      (ops : List Op)
      → (weigh length (run empty ops).files ≡ (run empty ops).used)
        × ((run empty ops).used ≤ cfg.max_bytes)
        × (length (run empty ops).files + length (run empty ops).dirs ≤ cfg.max_entries)
  run_within ops =
      let v : IsValid cfg (run empty ops) = keeps-IsValid ops empty empty-IsValid in
      (v.counted, v.bytes_le, v.entries_le)
