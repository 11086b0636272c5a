-- ===== src/Pty.antt =====
-- internal/pty/session.go: the tracker of the application cursor keys mode (DECCKM), and the
-- arrow keys that it rewrites; `Session` is the session around them.
pub mod Parse
pub mod Sound
pub mod Session
mod Tests
use scomp_agent.Common.{
  equal, ℕ, Bool, false, not, ◌&&◌, ◌||◌, [], ◌∷◌, ◌++◌, leb, ◌==◌, if◌then◌else◌, Bytes,
}

pub data ModeState : Type 0 where
  normal esc csi csi_q csi_qn : ModeState

-- `modeTracker`; `param` is a slice that only this record holds.
pub record Tracker : Type 0 where
  pub state : ModeState
  pub param : Bytes
  pub decckm : Bool

abbrev pub initial : Tracker
initial = record { state = normal; param = []; decckm = false }

abbrev pub is_digit : ℕ → Bool
is_digit b = leb b'0' b && leb b b'9'

-- `case b == 'h' || b == 'l'` of the state `stateCsiQN`.
set_mode : Tracker → ℕ → Tracker
set_mode t b =
    let decckm = if equal t.param (b'1' ∷ []) then b == b'h' else t.decckm in
    record { state = normal; param = []; decckm = decckm }

unfoldable pub step_in : ModeState → Tracker → ℕ → Tracker
unfolding set_mode
step_in normal t b = if b == 0x1b then record t { state = esc } else t
step_in esc t b = if b == b'[' then record t { state = csi } else record t { state = normal }
step_in csi t b =
    if b == b'?' then record t { state = csi_q; param = [] } else record t { state = normal }
step_in csi_q t b =
    if is_digit b
    then record t { param = t.param ++ b ∷ []; state = csi_qn }
    else record t { state = normal }
step_in csi_qn t b =
    if is_digit b || b == b';'
    then record t { param = t.param ++ b ∷ [] }
    else if b == b'h' || b == b'l'
    then set_mode t b
    else record t { param = []; state = normal }

abbrev pub step : Tracker → ℕ → Tracker
step t = step_in t.state t

unfoldable pub process : Tracker → Bytes → Tracker
process t [] = t
process t (b ∷ p) = process (step t b) p

abbrev is_arrow : ℕ → Bool
is_arrow c = c == b'A' || c == b'B' || c == b'C' || c == b'D'

-- The slice is taken apart where the source tests `len(data) != 3` and its bytes.
unfoldable pub transform_input : Tracker → Bytes → Bytes
transform_input t (x ∷ y ∷ c ∷ []) =
    if not t.decckm || not (x == 0x1b) || not (y == b'[')
    then x ∷ y ∷ c ∷ []
    else if is_arrow c
    then 0x1b ∷ b'O' ∷ c ∷ []
    else x ∷ y ∷ c ∷ []
transform_input t input = input
