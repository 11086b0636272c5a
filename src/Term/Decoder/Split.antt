-- ===== src/Term/Decoder/Split.antt =====
-- Where the relay cuts the input makes no difference, but at a lone Escape.
use scomp_agent.Common.{
  ℕ, ◌≡◌, refl, sym, ap, ◌∙◌, ◌≢◌, ◌⊎◌, inl, inr, true, false, List, [], ◌∷◌, ◌++◌, append-nil,
  append_assoc, arith, Bytes,
}
use scomp_agent.Term.Decoder.{DecodeState, ground_state, esc, Decoder, feed_byte, feed}

-- The last byte is not an Escape.
abbrev pub NotEsc : Bytes → Type 0
NotEsc [] = Unit
NotEsc (b ∷ []) = b ≢ 0x1b
NotEsc (b ∷ c ∷ p) = NotEsc (c ∷ p)

feed_byte_last :
    (m : DecodeState) (d : Decoder) (b : ℕ)
    → b ≢ 0x1b
    → feed_byte m true d b ≡ feed_byte m false d b
unfolding feed_byte
feed_byte_last esc d b h = refl
feed_byte_last ground_state d b h = ground arith
feed_byte_last _ d b h = refl

-- Keys and state come out as if the two messages had been one, where the first does not end in an
-- Escape byte or the second is empty: also in the middle of a sequence or of a rune.
pub feed-append :
    (p q : Bytes) (d : Decoder)
    → NotEsc p ⊎ (q ≡ [])
    → feed d (p ++ q)
      ≡ (let (keys, d') = feed d p in let (more, d'') = feed d' q in (keys ++ more, d''))
unfolding feed
feed-append [] q d h = refl
feed-append (b ∷ []) [] d h = λ i.
    ((sym (append-nil ((feed_byte d.state true d b).0 ++ []))) i, (feed_byte d.state true d b).1)
feed-append (b ∷ []) (c ∷ q) d (inl h) = rw (append-nil, feed_byte_last d.state d b h)
feed-append (b ∷ []) (c ∷ q) d (inr e) = cc
feed-append (b ∷ c ∷ p) q d h =
    let (keys, d') = feed_byte d.state false d b in
    ap (λ (x : List ℕ × Decoder). (keys ++ x.0, x.1)) (feed-append (c ∷ p) q d' h) ∙ λ i. (
      sym (append_assoc keys (feed d' (c ∷ p)).0 (feed (feed d' (c ∷ p)).1 q).0) i,
      (feed (feed d' (c ∷ p)).1 q).1,
    )
