-- ===== src/Shell/Tty/Newlines.antt =====
-- What `translate` makes of newlines.
use scomp_agent.Common.{
  ℕ, ◌<◌, ◌≡◌, refl, sym, ap, ap₂, ◌∙◌, inl, inr, Bool, true, false, not, ◌&&◌, List, [], ◌∷◌, ◌++◌,
  append-nil, append_assoc, arith, ◌==◌, if◌then◌else◌, ==_iff, Bool-cases, Bytes, length,
  keep_last, keep_last_all, keep_last-keep_last,
}
use scomp_agent.Stream
use scomp_agent.Ring.Contents.{
  IsValid, contents, new-IsValid, size-new, contents-new, size-write, write-IsValid,
}
use scomp_agent.Ring.Keeps.{contents-write}
use scomp_agent.Ring.Replay.{snapshot-contents}
use mathlib.Core.Path.{subst}
use scomp_agent.Stream.{Stream, new, emit, snapshot}
use scomp_agent.Shell.Tty.{crlf, Tty, write, fresh, translate}

-- The first line of a text, and the lines behind it; a newline ends a line and is in none.
unfoldable pub lines : Bytes → Bytes × List Bytes
lines [] = ([], [])
lines (b ∷ p) = let (l, ls) = lines p in if b == b'\n' then ([], l ∷ ls) else (b ∷ l, ls)

-- Whether the last byte is a carriage return; the flag is for no bytes at all.
unfoldable pub ends_cr : Bool → Bytes → Bool
ends_cr flag [] = flag
ends_cr flag (b ∷ l) = ends_cr (b == b'\r') l

-- A line that ends in a carriage return, which is added only if there is none.
abbrev pub closed : Bool → Bytes → Bytes
closed flag l = if ends_cr flag l then l else l ++ b'\r' ∷ []

unfoldable pub rejoined : Bool → Bytes → List Bytes → Bytes
rejoined flag l [] = l
rejoined flag l (l' ∷ ls) = closed flag l ++ b'\n' ∷ rejoined false l' ls

-- The text for a terminal: every line that a newline ends ends in a carriage return too.
abbrev pub for_terminal : Bytes → Bytes
for_terminal p = rejoined false (lines p).0 (lines p).1

rejoined_push :
    (flag : Bool) (b : ℕ) (l : Bytes) (ls : List Bytes)
    → rejoined flag (b ∷ l) ls ≡ b ∷ rejoined (b == b'\r') l ls
unfolding rejoined ends_cr
rejoined_push flag b l [] = refl
rejoined_push flag b l (l' ∷ ls) = elim (Bool-cases (ends_cr (b == b'\r') l)) [
  | inl e ↦ rw e refl
  | inr e ↦ rw e refl
]

rejoined_newline :
    (flag : Bool) (out : Bytes) (l : Bytes) (ls : List Bytes)
    → out ≡ rejoined false l ls
    → (if b'\n' == b'\n' && not flag then b'\r' ∷ b'\n' ∷ out else b'\n' ∷ out)
      ≡ rejoined flag [] (l ∷ ls)
unfolding rejoined ends_cr
rejoined_newline true out l ls h = ap (◌∷◌ b'\n') h
rejoined_newline false out l ls h = ap (λ x. b'\r' ∷ b'\n' ∷ x) h

-- What the loop makes of a text, in terms of its lines.
crlf-rejoined : (flag : Bool) (p : Bytes) → (crlf flag p).0 ≡ rejoined flag (lines p).0 (lines p).1
unfolding crlf lines rejoined
crlf-rejoined flag [] = refl
crlf-rejoined flag (b ∷ p) = elim (Bool-cases (b == b'\n')) [
  | inl e ↦
      let is : b ≡ b'\n' = (==_iff b b'\n').0 e in
      rw is (rejoined_newline flag _ (lines p).0 (lines p).1 (crlf-rejoined false p))
  | inr e ↦ rw e (
      ap (◌∷◌ b) (crlf-rejoined (b == b'\r') p)
      ∙ sym (rejoined_push flag b (lines p).0 (lines p).1))
]

crlf-append :
    (flag : Bool) (p q : Bytes)
    → crlf flag (p ++ q)
      ≡ ((crlf flag p).0 ++ (crlf (crlf flag p).1 q).0, (crlf (crlf flag p).1 q).1)
unfolding crlf
crlf-append flag [] q = refl
crlf-append flag (b ∷ p) q = elim (Bool-cases (b == b'\n' && not flag)) [
  | inl e ↦ rw (e, crlf-append (b == b'\r') p q) refl
  | inr e ↦ rw (e, crlf-append (b == b'\r') p q) refl
]

-- The writes of a list of chunks, one by one.
unfoldable pub write_all : Tty × Stream → List Bytes → Tty × Stream
write_all t [] = t
write_all t (p ∷ ps) = write_all (write t p) ps

unfoldable pub concat : List Bytes → Bytes
concat [] = []
concat (p ∷ ps) = p ++ concat ps

-- The stream holds the last bytes of what `past` is translated to.
record Shows (size : ℕ) (past : Bytes) (t : Tty × Stream) : Type 0 where
  sized : length t.1.ring.buf ≡ size
  valid : IsValid t.1.ring
  holds : contents t.1.ring ≡ keep_last size (crlf false past).0
  flag : t.0.last_cr ≡ (crlf false past).1

emit-Shows :
    (size : ℕ) (past p : Bytes) (t : Tty) (s : Stream)
    → Shows size past (t, s)
    → Shows size (past ++ p) ((translate t p).1, emit s (translate t p).0)
unfolding emit translate
emit-Shows size past p t s h =
    let joined = crlf-append false past p in
    let out = (crlf t.last_cr p).0 in
    let out_of_past : out ≡ (crlf (crlf false past).1 p).0 = ap (λ b. (crlf b p).0) h.flag in
    record {
      sized = size-write s.ring out ∙ h.sized;
      valid = write-IsValid out h.valid;
      holds =
          contents-write out h.valid
          ∙ ap₂ (λ n x. keep_last n (x ++ out)) h.sized h.holds
          ∙ keep_last-keep_last size (crlf false past).0 out
          ∙ ap (λ x. keep_last size ((crlf false past).0 ++ x)) out_of_past
          ∙ ap (λ x. keep_last size x.0) (sym joined);
      flag = ap (λ b. (crlf b p).1) h.flag ∙ ap (λ x. x.1) (sym joined);
    }

write-Shows :
    (size : ℕ) (past p : Bytes) (t : Tty × Stream)
    → Shows size past t
    → Shows size (past ++ p) (write t p)
unfolding write
write-Shows size past [] t h = subst (λ q. Shows size q t) (sym (append-nil past)) h
write-Shows size past (b ∷ p) (t, s) h = emit-Shows size past (b ∷ p) t s h

write_all-Shows :
    (size : ℕ) (past : Bytes) (chunks : List Bytes) (t : Tty × Stream)
    → Shows size past t
    → Shows size (past ++ concat chunks) (write_all t chunks)
unfolding write_all concat
write_all-Shows size past [] t h = subst (λ q. Shows size q t) (sym (append-nil past)) h
write_all-Shows size past (p ∷ ps) t h =
    subst (λ q. Shows size q (write_all (write t p) ps)) (append_assoc past p (concat ps))
      (write_all-Shows size (past ++ p) ps (write t p) (write-Shows size past p t h))

new-Shows : (size : ℕ) (chans : ℕ → Stream.Chan) → Shows size [] (fresh, Stream.new size chans)
unfolding crlf new
new-Shows size chans = record {
  sized = size-new size;
  valid = new-IsValid size;
  holds = contents-new size ∙ sym (keep_last_all size [] (omega arith));
  flag = refl;
}

-- However a program cuts its output into writes, a client that attaches is shown the last `size`
-- bytes of one text: the lines of the whole output, each that a newline ends with a carriage return
-- at its end, which is added only where the line had none.
pub snapshot-write_all :
    (size : ℕ) (chans : ℕ → Stream.Chan) (chunks : List Bytes)
    → 0 < size
    → snapshot (write_all (fresh, Stream.new size chans) chunks).1
      ≡ keep_last size (for_terminal (concat chunks))
unfolding snapshot
snapshot-write_all size chans chunks pos =
    let h = write_all-Shows size [] chunks (fresh, Stream.new size chans) (new-Shows size chans) in
    (snapshot-contents h.valid (omega (arith, h.sized, pos))).0
    ∙ h.holds
    ∙ ap (keep_last size) (crlf-rejoined false (concat chunks))
