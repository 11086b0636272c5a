-- ===== src/Pty/Sound.antt =====
-- The cursor keys mode follows the output: it is on only where a whole sequence has turned it on.
use scomp_agent.Common.{
  ℕ, ◌≤◌, ◌≡◌, refl, sym, ap, ◌∙◌, ◌⊎◌, inl, inr, true, not, ◌||◌, [], ◌∷◌, ◌++◌, append-nil,
  append_assoc, arith, ◌==◌, Bool-cases, Bytes, equal_iff,
}
use scomp_agent.Pty.{
  ModeState, normal, esc, csi, csi_q, csi_qn, Tracker, initial, step_in, step, process,
  transform_input, is_arrow,
}
use scomp_agent.Pty.Parse.{sequence}

abbrev pub EndsWith : Bytes → Bytes → Type 0
EndsWith s p = (pre : Bytes) × (p ≡ pre ++ s)

-- What each state says of the output read so far.
abbrev Seen : ModeState → Bytes → Bytes → Type 0
Seen normal param past = Unit
Seen esc param past = EndsWith (0x1b ∷ []) past
Seen csi param past = EndsWith (0x1b ∷ b'[' ∷ []) past
Seen csi_q param past = EndsWith (0x1b ∷ b'[' ∷ b'?' ∷ []) past × (param ≡ [])
Seen csi_qn param past = EndsWith (0x1b ∷ b'[' ∷ b'?' ∷ param) past

-- The output holds the sequence that turns the mode on.
abbrev pub Enabled : Bytes → Type 0
Enabled p = (pre : Bytes) × (post : Bytes) × (p ≡ pre ++ (sequence (b'1' ∷ []) b'h' ++ post))

record Follows (past : Bytes) (t : Tracker) : Type 0 where
  seen : Seen t.state t.param past
  enabled : t.decckm ≡ true → Enabled past

EndsWith-concat : {s p : Bytes} (b : ℕ) → EndsWith s p → EndsWith (s ++ b ∷ []) (p ++ b ∷ [])
EndsWith-concat {s} b (pre, e) = (pre, rw e (append_assoc pre s (b ∷ [])))

Enabled-concat : {p : Bytes} (b : ℕ) → Enabled p → Enabled (p ++ b ∷ [])
Enabled-concat b (pre, post, e) = (pre, post ++ b ∷ [], rw e (simp append_assoc))

EndsWith-last : (p : Bytes) (b : ℕ) → EndsWith (b ∷ []) (p ++ b ∷ [])
EndsWith-last p b = (p, refl)

-- A sequence that ends the output turns the mode on.
Enabled-at :
    (past : Bytes) → EndsWith (0x1b ∷ b'[' ∷ b'?' ∷ b'1' ∷ []) past → Enabled (past ++ b'h' ∷ [])
Enabled-at past (pre, e) = (pre, [], rw e (append_assoc pre _ (b'h' ∷ [])))

step-Follows :
    (m : ModeState) (past : Bytes) (t : Tracker) (b : ℕ)
    → t.state ≡ m
    → Seen m t.param past
    → (t.decckm ≡ true → Enabled past)
    → Follows (past ++ b ∷ []) (step_in m t b)
unfolding step_in
step-Follows normal past t b m s on =
    ground (arith, EndsWith-last past b, Enabled-concat {p = past} b)
step-Follows esc past t b m s on = ground (arith, EndsWith-concat b s, Enabled-concat {p = past} b)
step-Follows csi past t b m s on = ground (arith, EndsWith-concat b s, Enabled-concat {p = past} b)
step-Follows csi_q past t b m s on =
    ground (arith, EndsWith-concat b s.0, Enabled-concat {p = past} b)
step-Follows csi_qn past t b m s on = ground (
  arith,
  EndsWith-concat b s,
  Enabled-concat {p = past} b,
  Enabled-at past,
  equal_iff t.param (b'1' ∷ []),
)

run-Follows : (p past : Bytes) (t : Tracker) → Follows past t → Follows (past ++ p) (process t p)
unfolding process
run-Follows [] past t f = rw append-nil f
run-Follows (b ∷ p) past t f = rw (← append_assoc past (b ∷ []) p) (
    run-Follows p (past ++ b ∷ []) (step t b) (step-Follows t.state past t b refl f.seen f.enabled))

-- A new session's tracker reports the cursor keys mode only if the output so far holds the
-- sequence that turns it on.
pub process_sound : (p : Bytes) → (process initial p).decckm ≡ true → Enabled p
process_sound p on =
    let f : Follows p (process initial p) =
      run-Follows p [] initial (record { seen = tt; enabled = λ e. cc }) in
    f.enabled on

-- `input` is the sequence of the arrow key `c`.
abbrev pub IsArrow : ℕ → Bytes → Type 0
IsArrow c input = (b'A' ≤ c) × (c ≤ b'D') × (input ≡ 0x1b ∷ b'[' ∷ c ∷ [])

-- `input` is an arrow key's sequence, rewritten in the cursor keys mode.
abbrev pub Rewritten : Tracker → Bytes → Type 0
Rewritten t input =
    (c : ℕ) × (t.decckm ≡ true) × IsArrow c input × (transform_input t input ≡ 0x1b ∷ b'O' ∷ c ∷ [])

transform_input_cases :
    (t : Tracker) (input : Bytes) → (transform_input t input ≡ input) ⊎ Rewritten t input
unfolding transform_input
transform_input_cases t (x ∷ y ∷ c ∷ []) =
    elim (Bool-cases (not t.decckm || not (x == 0x1b) || not (y == b'['))) [
      | inl other ↦ inl (rw other)
      | inr key ↦ elim (Bool-cases (is_arrow c)) [
        | inl arrow ↦
            inr (c, ground arith, (ground arith, ground arith, ground arith), ground arith)
        | inr plain ↦ inl (rw (key, plain))
      ]
    ]
transform_input_cases t [] = inl refl
transform_input_cases t (x ∷ []) = inl refl
transform_input_cases t (x ∷ y ∷ []) = inl refl
transform_input_cases t (x ∷ y ∷ c ∷ d ∷ r) = inl refl

transform_input_arrow :
    (t : Tracker) (c : ℕ)
    → t.decckm ≡ true
    → b'A' ≤ c
    → c ≤ b'D'
    → transform_input t (0x1b ∷ b'[' ∷ c ∷ []) ≡ 0x1b ∷ b'O' ∷ c ∷ []
unfolding transform_input
transform_input_arrow t c on lo hi = ground arith

kept-IsArrow :
    (t : Tracker) (c : ℕ) (input : Bytes)
    → transform_input t input ≡ input
    → t.decckm ≡ true
    → ¬ IsArrow c input
kept-IsArrow t c input same on (lo, hi, at) =
    let changed : 0x1b ∷ b'O' ∷ c ∷ [] ≡ 0x1b ∷ b'[' ∷ c ∷ [] =
      sym (transform_input_arrow t c on lo hi) ∙ ap (transform_input t) (sym at) ∙ same ∙ at in
    ground arith

-- In the cursor keys mode just the sequences of the four arrow keys are rewritten, and of them
-- just the middle byte; all other input, and all input outside the mode, is passed on as it is.
pub transform_input_lem :
    (t : Tracker) (input : Bytes)
    → Rewritten t input
      ⊎ ((transform_input t input ≡ input) × ¬ ((c : ℕ) × (t.decckm ≡ true) × IsArrow c input))
transform_input_lem t input = elim (transform_input_cases t input) [
  | inl same ↦ inr (same, λ k. kept-IsArrow t k.0 input same k.1 k.2)
  | inr done ↦ inl done
]
