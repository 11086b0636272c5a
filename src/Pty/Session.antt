-- ===== src/Pty/Session.antt =====
-- internal/pty/session.go: `Session`, where output is tracked and emitted, and input rewritten. The
-- process's file is outside: `emit` is given what was read from it, `write` answers what is written.
use scomp_agent.Common.{ℕ, ◌≡◌, refl, sym, ap, ◌∙◌, Bool, List, [], ◌∷◌, ◌++◌, Bytes}
use scomp_agent.Ring
use scomp_agent.Stream
use scomp_agent.Stream.{Stream, Chan}
use scomp_agent.Pty.{Tracker, initial, process, transform_input}
use scomp_agent.Pty.Parse.{process-append}

pub record Session : Type 0 where
  pub stream : Stream
  pub tracker : Tracker

abbrev pub new : (ℕ → Chan) → Session
new chans = record { stream = Stream.new Ring.default_size chans; tracker = initial }

pub emit : Session → Bytes → Session
emit s p = record { tracker = process s.tracker p; stream = Stream.emit s.stream p }

abbrev pub write : Session → Bytes → Bytes
write s input = transform_input s.tracker input

-- `DECCKMActive`
abbrev pub decckm_active : Session → Bool
decckm_active s = s.tracker.decckm

unfoldable pub emit_all : Session → List Bytes → Session
unfolding emit
emit_all s [] = s
emit_all s (p ∷ ps) = emit_all (emit s p) ps

abbrev pub concat : List Bytes → Bytes
concat [] = []
concat (p ∷ ps) = p ++ concat ps

tracked : (ps : List Bytes) (s : Session) → (emit_all s ps).tracker ≡ process s.tracker (concat ps)
unfolding emit_all process
tracked [] s = refl
tracked (p ∷ ps) s = tracked ps (emit s p) ∙ sym (process-append p (concat ps) s.tracker)

-- What is written for an input depends on the whole output so far, however the reads cut it into
-- pieces: also where a piece ends inside a mode sequence.
write-emit_all :
    (chans : ℕ → Chan) (ps : List Bytes) (input : Bytes)
    → write (emit_all (new chans) ps) input ≡ transform_input (process initial (concat ps)) input
write-emit_all chans ps input = ap (λ t. transform_input t input) (tracked ps (new chans))
