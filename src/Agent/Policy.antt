-- ===== src/Agent/Policy.antt =====
-- cmd/scomp/main.go: which remote input and which resizes reach a session.
use scomp_agent.Common.{
  equal, ◌≡◌, refl, ◌↔◌, ◌⊎◌, inl, inr, Bool, true, false, ◌&&◌, ◌||◌, Option, none, some, List, [],
  ◌∷◌, arith, ◌==◌, if◌then◌else◌, Bool-cases, Bytes, length, equal_iff, text,
}
use scomp_agent.Protocol.{SessionMode, mode_full, mode_readonly, mode_approved}

abbrev pub approved_sequences : List Bytes
approved_sequences =
    text "y\r"
    ∷ text "y\n"
    ∷ text "n\r"
    ∷ text "n\n"
    ∷ (0x03 ∷ [])
    ∷ (0x0d ∷ [])
    ∷ (0x09 ∷ [])
    ∷ (0x1b ∷ [])
    ∷ []

-- The inner loop, over two sequences of one length; its `break` is the answer `false`.
pub matches : Bytes → Bytes → Bool
matches [] input = true
matches (s ∷ seq) [] = false
matches (s ∷ seq) (d ∷ input) = if d == s then matches seq input else false

pub is_one_of : List Bytes → Bytes → Bool
unfolding matches
is_one_of [] input = false
is_one_of (seq ∷ seqs) input =
    if length input == length seq && matches seq input then true else is_one_of seqs input

unfoldable pub is_approved : Bytes → Bool
is_approved input = is_one_of approved_sequences input

unfoldable pub input_allowed : SessionMode → Bytes → Bool
input_allowed mode input =
    if equal mode mode_full
    then true
    else if equal mode mode_approved
    then is_approved input
    else false

unfoldable pub resize_allowed : SessionMode → Bool
resize_allowed mode = equal mode mode_full || equal mode mode_approved

-- `none` is the error.
unfoldable pub parse_session_mode : Bytes → Option SessionMode
parse_session_mode value =
    if equal value (text "full")
    then some mode_full
    else if equal value (text "readonly")
    then some mode_readonly
    else if equal value (text "approved-only")
    then some mode_approved
    else none

abbrev pub OneOf : List Bytes → Bytes → Type 0
OneOf [] input = ⊥
OneOf (seq ∷ seqs) input = (input ≡ seq) ⊎ OneOf seqs input

matches_iff :
    (seq input : Bytes) → ((length input == length seq && matches seq input) ≡ true) ↔ (input ≡ seq)
unfolding matches
matches_iff [] [] = ground arith
matches_iff [] (d ∷ input) = ground arith
matches_iff (s ∷ seq) [] = ground arith
matches_iff (s ∷ seq) (d ∷ input) = ground (arith, matches_iff seq input)

or_else_iff :
    (b c : Bool) {P Q : Type 0}
    → (b ≡ true) ↔ P
    → (c ≡ true) ↔ Q
    → ((if b then true else c) ≡ true) ↔ (P ⊎ Q)
or_else_iff true c p q = ((λ h. inl (p.0 refl)), λ h. refl)
or_else_iff false c p q = ((λ h. inr (q.0 h)), elim [ inl x ↦ absurd (cc (p.1 x)) | inr y ↦ q.1 y ])

or_true : (b : Bool) → (b || true) ≡ true
or_true true = refl
or_true false = refl

and_iff :
    (b c : Bool) {P Q : Type 0}
    → (b ≡ true) ↔ P
    → (c ≡ true) ↔ Q
    → ((if b then c else false) ≡ true) ↔ (P × Q)
and_iff true c p q = ((λ h. (p.0 refl, q.0 h)), λ h. q.1 h.1)
and_iff false c p q = ((λ h. absurd (cc h)), λ h. absurd (cc (p.1 h.0)))

is_one_of_iff :
    (seqs : List Bytes) (input : Bytes) → (is_one_of seqs input ≡ true) ↔ OneOf seqs input
unfolding is_one_of
is_one_of_iff [] input = ground arith
is_one_of_iff (seq ∷ seqs) input =
    or_else_iff _ _ (matches_iff seq input) (is_one_of_iff seqs input)

-- Remote input is written exactly in full mode, and in approved-only mode where it is, as a whole,
-- one of the approved sequences. Every other mode drops all input, the empty mode of an unknown
-- session too.
pub input_allowed_iff :
    (mode : SessionMode) (input : Bytes)
    → (input_allowed mode input ≡ true)
      ↔ ((mode ≡ mode_full) ⊎ ((mode ≡ mode_approved) × OneOf approved_sequences input))
unfolding input_allowed is_approved
input_allowed_iff mode input = or_else_iff (equal mode mode_full) _ (equal_iff mode mode_full) (
    and_iff (equal mode mode_approved) _ (equal_iff mode mode_approved)
      (is_one_of_iff approved_sequences input))

-- A session may be resized exactly in the modes in which some input is allowed.
pub resize_allowed_iff :
    (mode : SessionMode)
    → (resize_allowed mode ≡ true) ↔ ((input : Bytes) × (input_allowed mode input ≡ true))
unfolding resize_allowed
resize_allowed_iff mode = (
  (λ h. (0x0d ∷ [], (input_allowed_iff mode _).1 (known h))),
  λ h. found ((input_allowed_iff mode h.0).0 h.1),
)
  where
    known :
        (equal mode mode_full || equal mode mode_approved) ≡ true
        → (mode ≡ mode_full) ⊎ ((mode ≡ mode_approved) × OneOf approved_sequences (0x0d ∷ []))
    known h = elim (Bool-cases (equal mode mode_full)) [
      | inl is_full ↦ inl ((equal_iff mode mode_full).0 is_full)
      | inr other ↦
          inr (
            (equal_iff mode mode_approved).0 (rw other at h),
            inr (inr (inr (inr (inr (inl refl))))),
          )
    ]

    found :
        {P : Type 0}
        → (mode ≡ mode_full) ⊎ ((mode ≡ mode_approved) × P)
        → (equal mode mode_full || equal mode mode_approved) ≡ true
    found (inl e) = rw ((equal_iff mode mode_full).1 e)
    found (inr e) = rw ((equal_iff mode mode_approved).1 e.0) (or_true (equal mode mode_full))

-- The three names of the flag are accepted, and nothing else; each is its own mode.
pub parse_session_mode_iff :
    (value mode : Bytes)
    → (parse_session_mode value ≡ some mode)
      ↔ ((mode ≡ value) × OneOf (mode_full ∷ mode_readonly ∷ mode_approved ∷ []) value)
unfolding parse_session_mode
parse_session_mode_iff value mode =
    ground (
      arith,
      equal_iff value mode_full,
      equal_iff value mode_readonly,
      equal_iff value mode_approved,
    )
