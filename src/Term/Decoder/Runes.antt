-- ===== src/Term/Decoder/Runes.antt =====
-- Runes that a client encodes arrive as the keys that they are.
use scomp_agent.Common.{
  ℕ, ◌+◌, ◌/◌, ◌%◌, ◌≤◌, ◌<◌, ◌≡◌, refl, sym, ap, ◌∙◌, ◌≢◌, ◌⊎◌, Bool, true, false, [], ◌∷◌, ◌++◌,
  arith, Bytes, length,
}
use native.Mathlib.Decide.{dec_lt}
use scomp_agent.Term.Decoder.{Decoder, feed_byte, feed, ground_state}
use scomp_agent.Term.Keys.{max_rune}
use scomp_agent.Term.Utf8.{decode_rune, encode_rune, IsScalar, rune_error, full_rune}

decode_rune-encode_rune : (r : ℕ) → IsScalar r → decode_rune (encode_rune r) ≡ r
unfolding decode_rune encode_rune
decode_rune-encode_rune r s = ground arith

-- A decoder between two keys, with `utf` read of the next rune.
abbrev pub between : Bytes → Bytes → Bool → Decoder
between params utf cr = record { state = ground_state; params = params; utf = utf; last_cr = cr }

-- What is fed byte by byte while a rune is not whole, and then when it is.
feed_part :
    (d : Decoder) (last : Bool) (utf : Bytes) (b : ℕ)
    → d.utf ≡ utf
    → 0x80 ≤ b
    → full_rune (utf ++ b ∷ []) ≡ false
    → length (utf ++ b ∷ []) < 4
    → feed_byte ground_state last d b ≡ ([], record d { utf = utf ++ b ∷ []; last_cr = false })
unfolding feed_byte
feed_part d last utf b e hb part few = ground arith

feed_whole :
    (d : Decoder) (last : Bool) (utf : Bytes) (b r : ℕ)
    → d.utf ≡ utf
    → 0x80 ≤ b
    → full_rune (utf ++ b ∷ []) ≡ true
    → decode_rune (utf ++ b ∷ []) ≡ r
    → r ≢ rune_error
    → feed_byte ground_state last d b ≡ (r ∷ [], record d { utf = []; last_cr = false })
unfolding feed_byte
feed_whole d last utf b r e hb whole dec ne = ground arith

-- The beginnings of an encoded rune are not whole, and the rune is.
encode_prefixes_2 :
    (r : ℕ)
    → 0x80 ≤ r
    → r < 0x800
    → let b = 0xc0 + r / 64 in
      (full_rune (b ∷ []) ≡ false) × (full_rune (b ∷ (0x80 + r % 64) ∷ []) ≡ true)
unfolding full_rune
encode_prefixes_2 r lo hi = (ground arith, ground arith)

encode_prefixes_3 :
    (r : ℕ)
    → 0x800 ≤ r
    → r < 0x10000
    → (r < 0xd800) ⊎ (0xdfff < r)
    → let b = 0xe0 + r / 4096 in
      let c = 0x80 + r / 64 % 64 in
      (full_rune (b ∷ []) ≡ false)
      × (full_rune (b ∷ c ∷ []) ≡ false)
      × (full_rune (b ∷ c ∷ (0x80 + r % 64) ∷ []) ≡ true)
unfolding full_rune
encode_prefixes_3 r lo hi s = (ground arith, ground arith, ground arith)

encode_prefixes_4 :
    (r : ℕ)
    → 0x10000 ≤ r
    → r ≤ max_rune
    → let b = 0xf0 + r / 262144 in
      let c = 0x80 + r / 4096 % 64 in
      let d = 0x80 + r / 64 % 64 in
      (full_rune (b ∷ []) ≡ false)
      × (full_rune (b ∷ c ∷ []) ≡ false)
      × (full_rune (b ∷ c ∷ d ∷ []) ≡ false)
      × (full_rune (b ∷ c ∷ d ∷ (0x80 + r % 64) ∷ []) ≡ true)
unfolding full_rune
encode_prefixes_4 r lo hi = (ground arith, ground arith, ground arith, ground arith)

module _ (params : Bytes) (cr : Bool) (r : ℕ) (s : IsScalar r) (ne : r ≢ rune_error) where
  -- What `encode_rune` gives, once its tests are known, is read back.
  Arrives : Bytes → Type 0
  Arrives bytes = feed (between params [] cr) bytes ≡ (r ∷ [], between params [] false)

  Arrives-2 : 0x80 ≤ r → r < 0x800 → Arrives (encode_rune r)
  unfolding Arrives feed
  Arrives-2 lo hi =
      let e : encode_rune r ≡ (0xc0 + r / 64) ∷ (0x80 + r % 64) ∷ [] =
        unfold encode_rune in ground arith in
      let (part, whole) = encode_prefixes_2 r lo hi in
      rw (
        e,
        feed_part (between params [] cr) false [] _ refl (omega arith) part (omega arith),
        feed_whole (between params ((0xc0 + r / 64) ∷ []) false) true _ _ r refl (omega arith) whole
            (ap decode_rune (sym e) ∙ decode_rune-encode_rune r s) ne,
      )

  Arrives-3 : 0x800 ≤ r → r < 0x10000 → Arrives (encode_rune r)
  unfolding Arrives feed
  Arrives-3 lo hi =
      let b = 0xe0 + r / 4096 in
      let c = 0x80 + r / 64 % 64 in
      let e : encode_rune r ≡ b ∷ c ∷ (0x80 + r % 64) ∷ [] = unfold encode_rune in ground arith in
      let (part, part', whole) = encode_prefixes_3 r lo hi s.1 in
      rw (
        e,
        feed_part (between params [] cr) false [] b refl (omega arith) part (omega arith),
        feed_part (between params (b ∷ []) false) false (b ∷ []) c refl (omega arith) part'
            (omega arith),
        feed_whole (between params (b ∷ c ∷ []) false) true (b ∷ c ∷ []) _ r refl (omega arith)
            whole (ap decode_rune (sym e) ∙ decode_rune-encode_rune r s) ne,
      )

  Arrives-4 : 0x10000 ≤ r → Arrives (encode_rune r)
  unfolding Arrives feed
  Arrives-4 lo =
      let b = 0xf0 + r / 262144 in
      let c = 0x80 + r / 4096 % 64 in
      let d = 0x80 + r / 64 % 64 in
      let e : encode_rune r ≡ b ∷ c ∷ d ∷ (0x80 + r % 64) ∷ [] =
        unfold encode_rune in ground arith in
      let (part, part', part'', whole) = encode_prefixes_4 r lo s.0 in
      rw (
        e,
        feed_part (between params [] cr) false [] b refl (omega arith) part (omega arith),
        feed_part (between params (b ∷ []) false) false (b ∷ []) c refl (omega arith) part'
            (omega arith),
        feed_part (between params (b ∷ c ∷ []) false) false (b ∷ c ∷ []) d refl (omega arith) part''
            (omega arith),
        feed_whole (between params (b ∷ c ∷ d ∷ []) false) true (b ∷ c ∷ d ∷ []) _ r refl
            (omega arith) whole (ap decode_rune (sym e) ∙ decode_rune-encode_rune r s) ne,
      )

  -- A rune that is not ASCII, a scalar value other than the replacement character, arrives as
  -- itself, whatever key came before it, and leaves the decoder between two keys.
  pub feed-encode_rune :
      0x80 ≤ r → feed (between params [] cr) (encode_rune r) ≡ (r ∷ [], between params [] false)
  unfolding Arrives
  feed-encode_rune lo = elim (dec_lt r 0x800) [
    | yes two ↦ Arrives-2 lo two
    | no more ↦ elim (dec_lt r 0x10000) [
      | yes three ↦ Arrives-3 (omega arith) three
      | no four ↦ Arrives-4 (omega arith)
    ]
  ]
