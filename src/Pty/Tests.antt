-- ===== src/Pty/Tests.antt =====
-- The cursor keys mode at concrete inputs.
use scomp_agent.Common.{equal, ◌≡◌, refl, inl, true, [], ◌∷◌, Bytes}
use scomp_agent.Pty.{Tracker, initial, process, normal, step_in}
use scomp_agent.Pty.Parse.{process-sequence, sequence}
use scomp_agent.Pty.Sound.{process_sound, Enabled}

-- `ESC [ ? 1 h` behind other output.
abbrev full_screen : Bytes
full_screen = b'o' ∷ b'k' ∷ sequence (b'1' ∷ []) b'h'

abbrev in_app : Tracker
in_app = record { state = normal; param = []; decckm = true }

process-full_screen : process initial full_screen ≡ in_app
unfolding process step_in equal
process-full_screen = refl

process_sound_example : Enabled full_screen
unfolding process step_in equal
process_sound_example = process_sound full_screen refl

process-sequence_example : process initial (sequence (b'2' ∷ b'5' ∷ []) b'h') ≡ initial
unfolding equal
process-sequence_example =
    process-sequence initial b'2' (b'5' ∷ []) b'h' refl refl (refl, tt) (inl refl)
