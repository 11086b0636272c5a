-- ===== src/Term/Render.antt =====
-- fakeshell/term/editor.go: `render` and `VisibleLen`.
use scomp_agent.Common.{
  ℕ, zero, suc, ◌+◌, ◌-◌, ◌/◌, ◌%◌, Bool, true, false, not, ◌&&◌, [], ◌∷◌, ◌++◌, ltb, leb, ◌==◌,
  if◌then◌else◌, Bytes, length, text,
}
use scomp_agent.Term.Line.{Config, State}

-- `%d` of a number; `fuel` bounds its digits.
unfoldable pub decimal_from : ℕ → ℕ → Bytes
decimal_from zero n = []
decimal_from (suc fuel) n =
    let front = decimal_from fuel (n / 10) in
    if ltb n 10 then (b'0' + n) ∷ [] else front ++ (b'0' + n % 10) ∷ []

unfoldable pub decimal : ℕ → Bytes
unfolding decimal_from
decimal n = decimal_from (n + 1) n

-- `VisibleLen`; the flags are `inEsc` and `inCSI`.
visible_from : Bool → Bool → Bytes → ℕ
visible_from in_esc in_csi [] = 0
visible_from in_esc true (r ∷ s) = visible_from in_esc (not (leb 0x40 r && leb r 0x7e)) s
visible_from true false (r ∷ s) = visible_from false (r == b'[') s
visible_from false false (r ∷ s) =
    if r == 0x1b
    then visible_from true false s
    else (if leb 0x20 r then 1 else 0) + visible_from false false s

unfoldable pub visible_len : Bytes → ℕ
unfolding visible_from
visible_len s = visible_from false false s

abbrev csi_seq : ℕ → ℕ → Bytes
csi_seq n final = 0x1b ∷ b'[' ∷ (decimal n ++ final ∷ [])

abbrev pub write : Bytes → State → State
write p s = record s { out = s.out ++ p ∷ [] }

-- The text that `render` writes.
unfoldable pub frame : ℕ → ℕ → Bytes → Bytes → ℕ → Bytes
unfolding decimal
frame w cursor_row prompt line pos =
    let plen = visible_len prompt in
    let stop = plen + length line in
    let target = plen + pos in
    (if ltb 0 cursor_row then csi_seq cursor_row b'A' else [])
    ++ (text "\r"
        ++ (prompt
            ++ (line
                ++ ((if ltb 0 stop && stop % w == 0 then text "\r\n" else [])
                    ++ ((0x1b ∷ text "[J")
                        ++ ((if ltb (target / w) (stop / w)
                              then csi_seq (stop / w - target / w) b'A'
                              else [])
                            ++ (text "\r"
                                ++ (if ltb 0 (target % w)
                                    then csi_seq (target % w) b'C'
                                    else []))))))))

unfoldable pub render : Config → Bytes → ℕ → State → State
render c prompt pos s =
    let w = c.width s.out in
    write (frame w s.cursor_row prompt s.line pos)
      (record s { cursor_row = (visible_len prompt + pos) / w })
