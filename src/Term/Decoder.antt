-- ===== src/Term/Decoder.antt =====
-- fakeshell/term/keys.go: `Decoder`, which turns the bytes of a remote client into keys.
pub mod Bounds
pub mod Split
pub mod Runes
use scomp_agent.Common.{
  equal, ℕ, ◌+◌, ◌-◌, Bool, true, false, not, ◌&&◌, ◌||◌, List, [], ◌∷◌, ◌++◌, ltb, leb, ◌==◌,
  if◌then◌else◌, Bytes, length, text,
}
use scomp_agent.Term.Keys.{
  key_up, key_down, key_right, key_left, key_home, key_end, key_delete, key_page_up, key_page_down,
  key_unknown, key_backspace, key_enter, key_esc,
}
use scomp_agent.Term.Utf8.{rune_error, utf_max, full_rune, decode_rune}

pub data DecodeState : Type 0 where
  ground_state esc csi csi_discard ss3 : DecodeState

abbrev pub max_csi : ℕ
max_csi = 16

-- The slices `params` and `utf` are held by this record alone.
pub record Decoder : Type 0 where
  pub state : DecodeState
  pub params : Bytes
  pub utf : Bytes
  pub last_cr : Bool

abbrev pub fresh : Decoder
fresh = record { state = ground_state; params = []; utf = []; last_cr = false }

unfoldable pub csi_key : Bytes → ℕ → ℕ
csi_key params final =
    if final == b'A'
    then key_up
    else if final == b'B'
    then key_down
    else if final == b'C'
    then key_right
    else if final == b'D'
    then key_left
    else if final == b'H'
    then key_home
    else if final == b'F'
    then key_end
    else if final == b'~'
    then if equal params (text "1") || equal params (text "7")
      then key_home
      else if equal params (text "4") || equal params (text "8")
      then key_end
      else if equal params (text "3")
      then key_delete
      else if equal params (text "5")
      then key_page_up
      else if equal params (text "6")
      then key_page_down
      else key_unknown
    else key_unknown

unfoldable pub ss3_key : ℕ → ℕ
ss3_key b =
    if b == b'A'
    then key_up
    else if b == b'B'
    then key_down
    else if b == b'C'
    then key_right
    else if b == b'D'
    then key_left
    else if b == b'H'
    then key_home
    else if b == b'F'
    then key_end
    else key_unknown

-- The case of `ground` for a byte that belongs to a longer rune; `utf` ends in that byte.
unfoldable pub ground_utf : Decoder → Bytes → List ℕ × Decoder
ground_utf d utf =
    if full_rune utf
    then (
      if not (decode_rune utf == rune_error) then decode_rune utf ∷ [] else [],
      record d { utf = [] },
    )
    else if leb utf_max (length utf)
    then ([], record d { utf = [] })
    else ([], record d { utf = utf })

-- `ground`, which appends to its first argument: here the keys that it appends.
unfoldable pub ground_byte : Decoder → ℕ → List ℕ × Decoder
unfolding ground_utf
ground_byte d b =
    let cr = d.last_cr in
    let d' = record d { last_cr = false } in
    if ltb 0 (length d.utf) || leb 0x80 b
    then ground_utf d' (d.utf ++ b ∷ [])
    else if b == b'\r'
    then (key_enter ∷ [], record d' { last_cr = true })
    else if b == b'\n'
    then (if not cr then key_enter ∷ [] else [], d')
    else if b == 0x08
    then (key_backspace ∷ [], d')
    else (b ∷ [], d')

-- One round of the loop of `Feed`; `last` is `i == len(p)-1`.
unfoldable pub feed_byte : DecodeState → Bool → Decoder → ℕ → List ℕ × Decoder
unfolding ground_byte csi_key ss3_key
feed_byte esc last d b =
    if b == b'['
    then ([], record d { state = csi; params = [] })
    else if b == b'O'
    then ([], record d { state = ss3 })
    else let (keys, d') = ground_byte (record d { state = ground_state }) b in (key_esc ∷ keys, d')
feed_byte csi last d b =
    if leb 0x40 b && leb b 0x7e
    then (csi_key d.params b ∷ [], record d { state = ground_state })
    else if leb max_csi (length d.params)
    then ([], record d { state = csi_discard })
    else ([], record d { params = d.params ++ b ∷ [] })
feed_byte csi_discard last d b =
    if leb 0x40 b && leb b 0x7e
    then (key_unknown ∷ [], record d { state = ground_state })
    else ([], d)
feed_byte ss3 last d b = (ss3_key b ∷ [], record d { state = ground_state })
feed_byte ground_state last d b =
    if b == 0x1b
    then (if last then (key_esc ∷ [], d) else ([], record d { state = esc }))
    else ground_byte d b

abbrev pub is_nil : Bytes → Bool
is_nil [] = true
is_nil (b ∷ p) = false

unfoldable pub feed : Decoder → Bytes → List ℕ × Decoder
feed d [] = ([], d)
feed d (b ∷ p) =
    let (keys, d') = feed_byte d.state (is_nil p) d b in
    let (more, d'') = feed d' p in (keys ++ more, d'')
