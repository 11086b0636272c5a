-- ===== src/Pty/Parse.antt =====
-- The tracker reads private mode sequences exactly.
use scomp_agent.Common.{
  equal, ℕ, ◌≡◌, refl, ◌∙◌, ◌⊎◌, true, ◌||◌, [], ◌∷◌, ◌++◌, append-nil, append_assoc, arith, ◌==◌,
  if◌then◌else◌, Bytes,
}
use scomp_agent.Pty.{normal, csi_qn, Tracker, is_digit, step_in, step, process}

-- Reading the output in one piece or in two makes no difference.
pub process-append : (p q : Bytes) (t : Tracker) → process t (p ++ q) ≡ process (process t p) q
unfolding process
process-append [] q t = refl
process-append (b ∷ p) q t = process-append p q (step t b)

abbrev pub IsParam : Bytes → Type 0
IsParam [] = Unit
IsParam (b ∷ p) = ((is_digit b || b == b';') ≡ true) × IsParam p

-- `ESC [ ?`, the parameter and the final byte.
abbrev pub sequence : Bytes → ℕ → Bytes
sequence param final = 0x1b ∷ b'[' ∷ b'?' ∷ (param ++ final ∷ [])

process_param :
    (p rest : Bytes) (t : Tracker)
    → t.state ≡ csi_qn
    → IsParam p
    → process t (p ++ rest) ≡ process (record t { param = t.param ++ p }) rest
unfolding process step_in
process_param [] rest t m h = rw append-nil
process_param (b ∷ p) rest t m h = ground (
  arith,
  process_param p rest (record t { param = t.param ++ b ∷ [] }) m h.1,
  append_assoc t.param (b ∷ []) p,
)

-- From the ground state, a whole private mode sequence with a final `h` or `l` sets the cursor
-- keys mode if its parameter is just `1`, leaves the mode alone otherwise, and is followed by the
-- ground state with no parameter held.
pub process-sequence :
    (t : Tracker) (d : ℕ) (p : Bytes) (final : ℕ)
    → t.state ≡ normal
    → is_digit d ≡ true
    → IsParam p
    → (final ≡ b'h') ⊎ (final ≡ b'l')
    → process t (sequence (d ∷ p) final) ≡ record {
      state = normal;
      param = [];
      decckm = if equal (d ∷ p) (b'1' ∷ []) then final == b'h' else t.decckm;
    }
unfolding process step_in
process-sequence t d p final m hd hp hf =
    opened ∙ process_param p (final ∷ []) inside refl hp ∙ closed
  where
    inside : Tracker
    inside = record { state = csi_qn; param = d ∷ []; decckm = t.decckm }

    opened : process t (sequence (d ∷ p) final) ≡ process inside (p ++ final ∷ [])
    opened = ground arith

    closed : process (record inside { param = d ∷ p }) (final ∷ []) ≡ record {
      state = normal;
      param = [];
      decckm = if equal (d ∷ p) (b'1' ∷ []) then final == b'h' else t.decckm;
    }
    closed = ground arith
