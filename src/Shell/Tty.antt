-- ===== src/Shell/Tty.antt =====
-- fakeshell/session.go: `TTY`, the output of a simulated program. The terminal's size and queue of
-- keys are the session's.
pub mod Newlines
mod Tests
use scomp_agent.Common.{
  ℕ, ◌-◌, ◌^◌, Bool, true, false, not, ◌&&◌, ◌||◌, Option, none, some, List, [], ◌∷◌, ◌==◌,
  if◌then◌else◌, Bytes, text,
}
use scomp_agent.Stream.{Stream, emit, emit_reset}
use scomp_agent.Term.Keys.{key_ctrl_c}

pub record Tty : Type 0 where
  pub at_line_start : Bool
  pub last_cr : Bool

-- `TTY` as `supervise` makes it.
abbrev pub fresh : Tty
fresh = record { at_line_start = true; last_cr = false }

-- The loop of `translate`, with `t.lastCR` before and after it.
unfoldable pub crlf : Bool → Bytes → Bytes × Bool
crlf last_cr [] = ([], last_cr)
crlf last_cr (b ∷ p) =
    let (out, last) = crlf (b == b'\r') p in
    (if b == b'\n' && not last_cr then b'\r' ∷ b ∷ out else b ∷ out, last)

-- Whether the bytes end in a newline or a carriage return; the flag is for no bytes at all.
unfoldable pub ends_line : Bool → Bytes → Bool
ends_line flag [] = flag
ends_line flag (b ∷ p) = ends_line (b == b'\n' || b == b'\r') p

unfoldable pub translate : Tty → Bytes → Bytes × Tty
unfolding crlf ends_line
translate t p =
    let (out, last) = crlf t.last_cr p in
    (out, record { at_line_start = ends_line t.at_line_start p; last_cr = last })

-- `Write`, with the stream that `t.emit` leads to.
unfoldable pub write : Tty × Stream → Bytes → Tty × Stream
unfolding translate
write (t, s) [] = (t, s)
write (t, s) (b ∷ p) = let (out, t') = translate t (b ∷ p) in (t', emit s out)

unfoldable pub frame : Tty × Stream → Bytes → Tty × Stream
unfolding translate
frame (t, s) p = let (out, t') = translate t p in (t', emit_reset s out)

abbrev pub clear_text : Bytes
clear_text = 0x1b ∷ b'[' ∷ b'H' ∷ 0x1b ∷ b'[' ∷ b'2' ∷ b'J' ∷ []

unfoldable pub clear_screen : Tty × Stream → Tty × Stream
unfolding frame
clear_screen t = let (t', s) = frame t clear_text in (record t' { at_line_start = true }, s)

-- What `Sleep` waits for.
pub data Wake : Type 0 where
  cancelled elapsed : Wake
  key : ℕ → Wake

-- `Sleep`, for the events as they come: its answer, and the events behind the one that ends it;
-- none if it still waits.
unfoldable pub sleep : Tty × Stream → List Wake → Option (Bool × (Tty × Stream) × List Wake)
unfolding write
sleep t [] = none
sleep t (cancelled ∷ events) = some (false, t, events)
sleep t (elapsed ∷ events) = some (true, t, events)
sleep t (key k ∷ events) =
    let rest = sleep t events in
    if k == key_ctrl_c then some (false, write t (text "^C\n"), events) else rest
