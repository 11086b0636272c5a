-- ===== src/Ring/Replay.antt =====
-- A ring over its life: writes and resets in any order, and the snapshot at the end.
use scomp_agent.Common.{
  ℕ, ◌-◌, ◌<◌, min, ◌≡◌, refl, sym, ap, ◌∙◌, ◌↔◌, Option, none, some, List, [], ◌∷◌, ◌++◌, arith,
  Bytes, length, take, drop, replicate, length-append, length-take, length-drop, length-replicate,
  eq-nil_of_length, keep_last, keep_last_all, copy_exact, copy_fill, keep_last-keep_last,
}
use scomp_agent.Ring.{Buffer, new, write, snapshot, reset}
use scomp_agent.Ring.Contents.{
  IsValid, contents, new-IsValid, write-IsValid, reset-IsValid, size-write, size-reset, size-new,
  contents-new, contents-reset,
}
use scomp_agent.Ring.Keeps.{contents-write}

pub data Op : Type 0 where
  put : Bytes → Op
  clear : Op

abbrev pub apply : Buffer → Op → Buffer
apply r (put p) = write r p
apply r clear = reset r

unfoldable pub run : Buffer → List Op → Buffer
run r [] = r
run r (op ∷ ops) = run (apply r op) ops

-- What was written since the last reset.
pub history : Bytes → List Op → Bytes
history past [] = past
history past (put p ∷ ops) = history (past ++ p) ops
history past (clear ∷ ops) = history [] ops

abbrev pub bytes_of : Option Bytes → Bytes
bytes_of none = []
bytes_of (some p) = p

-- A snapshot holds the contents of a valid ring, and is nil exactly when a ring that has room for
-- bytes holds none.
pub snapshot-contents :
    {r : Buffer}
    → IsValid r
    → 0 < length r.buf
    → (bytes_of (snapshot r) ≡ contents r) × ((snapshot r ≡ none) ↔ (contents r ≡ []))
unfolding snapshot
snapshot-contents {r} v pos = ground (
  arith,
  taken,
  dropped,
  copy_exact (replicate r.head 0) (take r.head r.buf),
  length-replicate {A = ℕ} r.head 0,
  length-replicate {A = ℕ} (length r.buf) 0,
  length-append {0} (drop r.head r.buf) (take r.head r.buf),
  copy_fill (replicate (length r.buf) 0) (drop r.head r.buf) (take r.head r.buf)
      (min (length {A = ℕ} (replicate (length r.buf) 0)) (length r.buf - r.head)),
  eq-nil_of_length (take r.head r.buf),
)
  where
    taken : length (take r.head r.buf) ≡ min r.head (length r.buf)
    taken = length-take r.head r.buf

    dropped : length (drop r.head r.buf) ≡ length r.buf - r.head
    dropped = length-drop r.head r.buf

run-contents :
    (ops : List Op) {r : Buffer} (past : Bytes)
    → IsValid r
    → contents r ≡ keep_last (length r.buf) past
    → IsValid (run r ops)
      × (length (run r ops).buf ≡ length r.buf)
      × (contents (run r ops) ≡ keep_last (length r.buf) (history past ops))
unfolding run history
run-contents [] past v e = (v, refl, e)
run-contents (put p ∷ ops) {r} past v e = rw (← size-write r p) (
    run-contents ops (past ++ p) (write-IsValid p v)
      (rw size-write (contents-write p v ∙ rw e (keep_last-keep_last _ past p))))
run-contents (clear ∷ ops) {r} past v e = rw (← size-reset r) (
    run-contents ops [] (reset-IsValid r)
      (contents-reset r ∙ sym (keep_last_all _ [] (omega arith))))

-- Whatever is written to a new ring that has room for bytes, with resets between, its snapshot is
-- the last bytes, as many as fit, of those written since the last reset; it is nil exactly when
-- there are none.
pub snapshot-run :
    (size : ℕ) (ops : List Op)
    → 0 < size
    → (bytes_of (snapshot (run (new size) ops)) ≡ keep_last size (history [] ops))
      × ((snapshot (run (new size) ops) ≡ none) ↔ (history [] ops ≡ []))
snapshot-run size ops pos =
    let (v, sized, held) =
      run-contents ops [] (new-IsValid size)
        (contents-new size ∙ sym (keep_last_all _ [] (omega arith))) in
    let room : 0 < length (run (new size) ops).buf = omega (arith, sized, size-new size) in
    let (bytes, iff) = snapshot-contents v room in
    let last : contents (run (new size) ops) ≡ keep_last size (history [] ops) =
      held ∙ ap (λ n. keep_last n (history [] ops)) (size-new size) in
    let nothing : history [] ops ≡ [] → contents (run (new size) ops) ≡ [] =
      λ e. last ∙ rw e (keep_last_all size [] (omega arith)) in
    (bytes ∙ last, ((λ e. not_cut (sym last ∙ iff.0 e)), λ e. iff.1 (nothing e)))
  where
    not_cut : keep_last size (history [] ops) ≡ [] → history [] ops ≡ []
    not_cut e = eq-nil_of_length _ (
        omega (
          arith,
          ap (length {A = ℕ}) e,
          length-drop {0} (length (history [] ops) - size) (history [] ops),
        ))
