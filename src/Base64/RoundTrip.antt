-- ===== src/Base64/RoundTrip.antt =====
-- What is encoded decodes to itself.
use scomp_agent.Common.{
  ℕ, ◌+◌, ◌*◌, ◌/◌, ◌%◌, ◌<◌, ◌≡◌, refl, ap, ◌∙◌, false, some, [], ◌∷◌, ◌++◌, append-nil, arith,
  ◌==◌, Bytes,
}
use scomp_agent.Base64.{
  symbol, value, encode, decode_groups, is_break, whole, unbroken, padded, decode,
}

value-symbol : (v : ℕ) → v < 64 → value (symbol v) ≡ some v
unfolding value symbol
value-symbol v h = ground arith

symbol-plain : (v : ℕ) → v < 64 → ((symbol v == b'=') ≡ false) × (is_break (symbol v) ≡ false)
unfolding symbol is_break
symbol-plain v h = (ground arith, ground arith)

abbrev pub IsBytes : Bytes → Type 0
IsBytes [] = Unit
IsBytes (b ∷ bs) = (b < 256) × IsBytes bs

decode_whole :
    (x y z w : ℕ) (front back tail : Bytes)
    → (w == b'=') ≡ false
    → whole x y z w ≡ some front
    → decode_groups tail ≡ some back
    → decode_groups (x ∷ y ∷ z ∷ w ∷ tail) ≡ some (front ++ back)
unfolding decode_groups
decode_whole x y z w front back [] plain e h = ground (arith, append-nil front)
decode_whole x y z w front back (v ∷ tail) plain e h = rw (e, h)

whole-symbol :
    (a b c d : ℕ)
    → a < 64
    → b < 64
    → c < 64
    → d < 64
    → whole (symbol a) (symbol b) (symbol c) (symbol d)
      ≡ some ((a * 4 + b / 16) ∷ (b % 16 * 16 + c / 4) ∷ (c % 4 * 64 + d) ∷ [])
unfolding whole
whole-symbol a b c d ha hb hc hd =
    rw (value-symbol a ha, value-symbol b hb, value-symbol c hc, value-symbol d hd)

-- Three bytes are cut into four values and put together again.
first_byte : (a b : ℕ) → b < 256 → a / 4 * 4 + (a % 4 * 16 + b / 16) / 16 ≡ a
first_byte a b h = omega arith

second_byte :
    (a b c : ℕ)
    → b < 256
    → c < 256
    → (a % 4 * 16 + b / 16) % 16 * 16 + (b % 16 * 4 + c / 64) / 4 ≡ b
second_byte a b c hb hc = omega arith

third_byte : (b c : ℕ) → c < 256 → (b % 16 * 4 + c / 64) % 4 * 64 + c % 64 ≡ c
third_byte b c h = omega arith

padded-symbol :
    (a b c : ℕ)
    → a < 64
    → b < 64
    → c < 64
    → (padded (symbol a) (symbol b) b'=' b'=' ≡ some ((a * 4 + b / 16) ∷ []))
      × (padded (symbol a) (symbol b) (symbol c) b'='
          ≡ some ((a * 4 + b / 16) ∷ (b % 16 * 16 + c / 4) ∷ []))
unfolding padded
padded-symbol a b c ha hb hc = (
  rw (value-symbol a ha, value-symbol b hb),
  rw (value-symbol a ha, value-symbol b hb, (symbol-plain c hc).0, value-symbol c hc),
)

decode_groups-encode : (bs : Bytes) → IsBytes bs → decode_groups (encode bs) ≡ some bs
unfolding encode
decode_groups-encode [] h = unfold decode_groups in refl
decode_groups-encode (a ∷ []) h =
    unfold decode_groups in
    rw ((padded-symbol (a / 4) (a % 4 * 16) 0 (omega arith) (omega arith) (omega arith)).0)
      (let e : a / 4 * 4 + (a % 4 * 16) / 16 ≡ a = omega arith in ap (λ x. some (x ∷ [])) e)
decode_groups-encode (a ∷ b ∷ []) h =
    unfold decode_groups in
    rw
      ((padded-symbol (a / 4) (a % 4 * 16 + b / 16) (b % 16 * 4) (omega arith) (omega arith)
        (omega arith)).1)
      (let e : (a % 4 * 16 + b / 16) % 16 * 16 + (b % 16 * 4) / 4 ≡ b = omega arith in
        rw (first_byte a b h.1.0, e))
decode_groups-encode (a ∷ b ∷ c ∷ rest) h =
    decode_whole _ _ _ _ _ rest (encode rest) (symbol-plain (c % 64) (omega arith)).0
      (whole-symbol (a / 4) (a % 4 * 16 + b / 16) (b % 16 * 4 + c / 64) (c % 64) (omega arith)
        (omega arith) (omega arith) (omega arith))
      (decode_groups-encode rest h.1.1.1)
    ∙ rw (first_byte a b h.1.0, second_byte a b c h.1.0 h.1.1.0, third_byte b c h.1.1.0)

unbroken-symbol : (v : ℕ) (cs : Bytes) → v < 64 → unbroken (symbol v ∷ cs) ≡ symbol v ∷ unbroken cs
unfolding unbroken
unbroken-symbol v cs h = rw ((symbol-plain v h).1)

unbroken-encode : (bs : Bytes) → IsBytes bs → unbroken (encode bs) ≡ encode bs
unfolding encode
unbroken-encode [] h = unfold unbroken in refl
unbroken-encode (a ∷ []) h =
    rw (unbroken-symbol (a / 4) _ (omega arith), unbroken-symbol (a % 4 * 16) _ (omega arith))
      (unfold unbroken in refl)
unbroken-encode (a ∷ b ∷ []) h =
    rw
      (
        unbroken-symbol (a / 4) _ (omega arith),
        unbroken-symbol (a % 4 * 16 + b / 16) _ (omega arith),
        unbroken-symbol (b % 16 * 4) _ (omega arith),
      )
      (unfold unbroken in refl)
unbroken-encode (a ∷ b ∷ c ∷ rest) h = rw (
  unbroken-symbol (a / 4) _ (omega arith),
  unbroken-symbol (a % 4 * 16 + b / 16) _ (omega arith),
  unbroken-symbol (b % 16 * 4 + c / 64) _ (omega arith),
  unbroken-symbol (c % 64) _ (omega arith),
  unbroken-encode rest h.1.1.1,
)

-- Terminal bytes that are put in a message are the bytes that its reader takes out.
pub decode-encode : (bs : Bytes) → IsBytes bs → decode (encode bs) ≡ some bs
unfolding decode
decode-encode bs h = rw (unbroken-encode bs h) (decode_groups-encode bs h)
