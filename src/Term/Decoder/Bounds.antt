-- ===== src/Term/Decoder/Bounds.antt =====
-- The decoder's memory is bounded, whatever the client sends.
use scomp_agent.Common.{
  ℕ, ◌≤◌, ◌<◌, Bool, false, [], ◌∷◌, ◌++◌, arith, Bytes, length, length-append,
}
use scomp_agent.Term.Utf8.{utf_max}
use scomp_agent.Term.Decoder.{
  DecodeState, ground_state, Decoder, max_csi, ground_utf, ground_byte, feed_byte, feed, is_nil,
}

pub record IsBounded (d : Decoder) : Type 0 where
  pub params_le : length d.params ≤ max_csi
  pub utf_lt : length d.utf < utf_max

ground_utf-IsBounded :
    (d : Decoder) (utf : Bytes)
    → length d.params ≤ max_csi
    → length utf ≤ utf_max
    → IsBounded (ground_utf d utf).1
unfolding ground_utf
ground_utf-IsBounded d utf hp hu = ground arith

ground_byte-IsBounded : (d : Decoder) (b : ℕ) → IsBounded d → IsBounded (ground_byte d b).1
unfolding ground_byte
ground_byte-IsBounded d b v = ground (
  arith,
  length-append {0} d.utf (b ∷ []),
  ground_utf-IsBounded (record d { last_cr = false }) (d.utf ++ b ∷ []),
)

feed_byte-IsBounded :
    (m : DecodeState) (last : Bool) (d : Decoder) (b : ℕ)
    → IsBounded d
    → IsBounded (feed_byte m last d b).1
unfolding feed_byte
feed_byte-IsBounded m last d b v = ground (
  arith,
  length-append {0} d.params (b ∷ []),
  ground_byte-IsBounded d b v,
  ground_byte-IsBounded (record d { state = ground_state }) b,
)

-- Whatever bytes arrive, the decoder keeps at most 16 parameter bytes and at most 3 bytes of an
-- unfinished rune.
pub feed-IsBounded : (p : Bytes) {d : Decoder} → IsBounded d → IsBounded (feed d p).1
unfolding feed
feed-IsBounded [] v = v
feed-IsBounded (b ∷ p) {d} v = feed-IsBounded p (feed_byte-IsBounded d.state (is_nil p) d b v)
