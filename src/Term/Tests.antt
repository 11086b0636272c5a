-- ===== src/Term/Tests.antt =====
-- The decoder and the line editor at concrete inputs.
use scomp_agent.Common.{◌≡◌, refl, inl, false, none, some, [], ◌∷◌, ◌++◌, arith, Bytes, text}
use scomp_agent.Term.Keys.{key_enter, key_up}
use scomp_agent.Term.Utf8.{encode_rune}
use scomp_agent.Term.Decoder.{fresh, feed, csi_key, feed_byte}
use scomp_agent.Term.Decoder.Bounds.{IsBounded, feed-IsBounded}
use scomp_agent.Term.Decoder.Split.{feed-append}
use scomp_agent.Term.Decoder.Runes.{between, feed-encode_rune}
use scomp_agent.Term.Line.{Config, State, Outcome, key}
use scomp_agent.Term.Editor.{limit, read_line}
use scomp_agent.Term.Editor.Inv.{Kept}
use scomp_agent.Term.Editor.Reads.{read_line_returns, read_line_lem}

abbrev up_arrow : Bytes
up_arrow = 0x1b ∷ b'[' ∷ b'A' ∷ []

feed-up_arrow : (feed fresh (b'x' ∷ up_arrow)).0 ≡ b'x' ∷ key_up ∷ []
unfolding feed feed_byte csi_key
feed-up_arrow = refl

feed-append_example : feed fresh ((0x1b ∷ b'[' ∷ []) ++ b'A' ∷ []) ≡ (
    let (keys, d') = feed fresh (0x1b ∷ b'[' ∷ []) in
    let (more, d'') = feed d' (b'A' ∷ []) in (keys ++ more, d''))
feed-append_example = feed-append (0x1b ∷ b'[' ∷ []) (b'A' ∷ []) fresh (inl (omega arith))

fresh-IsBounded : IsBounded fresh
fresh-IsBounded = record { params_le = omega arith; utf_lt = omega arith }

feed-IsBounded_example : IsBounded (feed fresh (b'x' ∷ up_arrow)).1
feed-IsBounded_example = feed-IsBounded (b'x' ∷ up_arrow) fresh-IsBounded

feed-encode_rune_example :
    feed (between [] [] false) (encode_rune 0x20ac) ≡ (0x20ac ∷ [], between [] [] false)
feed-encode_rune_example =
    feed-encode_rune [] false 0x20ac (omega arith, inl (omega arith)) (omega arith) (omega arith)

abbrev config : Config
config = record { width = λ out. 80; clear = none; max_len = 4; complete = none }

read_line_returns_example :
    (r : Outcome × State) × (read_line config
        (text "$ ")
        (text "longer" ∷ [])
        (key key_up ∷ key b'x' ∷ key key_enter ∷ [])
      ≡ some r)
read_line_returns_example =
    read_line_returns config (text "$ ") (text "longer" ∷ []) (key key_up ∷ key b'x' ∷ [])
      (key key_enter) [] (inl refl)

read_line_lem_example :
    (r : Outcome × State) × (read_line config
        (text "$ ")
        (text "ls" ∷ [])
        (key key_up ∷ key b'x' ∷ key key_enter ∷ [])
      ≡ some r)
    × Kept (limit config) r
read_line_lem_example =
    read_line_lem config (text "$ ") (text "ls" ∷ []) (key key_up ∷ key b'x' ∷ []) (key key_enter)
      [] (omega arith, tt) (omega arith) (inl refl)
