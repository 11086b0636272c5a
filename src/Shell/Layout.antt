-- ===== src/Shell/Layout.antt =====
-- fakeshell/shell.go: the layout of texts. A string is the list of its bytes, which are ASCII here.
pub mod Wrap
mod Tests
use scomp_agent.Common.{
  ℕ, zero, suc, ◌+◌, ◌-◌, ◌*◌, ◌/◌, max, Bool, true, false, not, ◌&&◌, Option, none, some, List, [],
  ◌∷◌, ◌++◌, ltb, leb, ◌==◌, if◌then◌else◌, Bytes, length, get_elem?, replicate,
}
use scomp_agent.Strings.{fields}
use scomp_agent.Term.Render.{visible_len}

-- The loop of `wrapText` over the words, and the newline behind it.
unfoldable pub wrap_from : ℕ → ℕ → List Bytes → Bytes
wrap_from width col [] = b'\n' ∷ []
wrap_from width col (w ∷ ws) =
    if ltb 0 col && ltb width (col + 1 + length w)
    then b'\n' ∷ w ++ wrap_from width (length w) ws
    else if ltb 0 col
    then b' ' ∷ w ++ wrap_from width (col + 1 + length w) ws
    else w ++ wrap_from width (col + length w) ws

unfoldable pub wrap_text : Bytes → ℕ → Bytes
unfolding wrap_from
wrap_text s width = wrap_from (if ltb width 20 then 20 else width) 0 (fields s)

unfoldable pub widest : List Bytes → ℕ
widest [] = 0
widest (n ∷ names) = max (visible_len n) (widest names)

unfoldable pub name_of : Option Bytes → Bytes
name_of none = []
name_of (some n) = n

-- The names of row `r`, from column `c` on; `left` columns are left.
unfoldable pub row_from : List Bytes → ℕ → ℕ → ℕ → ℕ → ℕ → Bytes
unfolding name_of
row_from names cell rows r c zero = []
row_from names cell rows r c (suc left) =
    let i = c * rows + r in
    let name = name_of (get_elem? names i) in
    let rest = row_from names cell rows r (c + 1) left in
    if leb (length names) i
    then []
    else name
      ++ ((if ltb 0 left && ltb (i + rows) (length names)
            then replicate (cell - visible_len name) b' '
            else [])
          ++ rest)

unfoldable pub rows_from : List Bytes → Bytes → ℕ → ℕ → ℕ → ℕ → ℕ → Bytes
unfolding row_from
rows_from names indent cell cols rows r zero = []
rows_from names indent cell cols rows r (suc left) =
    indent
    ++ (row_from names cell rows r 0 cols
        ++ b'\n' ∷ rows_from names indent cell cols rows (r + 1) left)

unfoldable pub columns : List Bytes → ℕ → Bytes → Bytes
unfolding widest rows_from
columns names width indent =
    let cell = widest names + 2 in
    let cols = max 1 ((width + 2 - length indent) / cell) in
    let rows = (length names + cols - 1) / cols in
    if length names == 0 then [] else rows_from names indent cell cols rows 0 rows

-- The loop of `stripANSI`, with its flags `inEsc` and `inCSI`.
unfoldable pub strip_from : Bool → Bool → Bytes → Bytes
strip_from in_esc in_csi [] = []
strip_from in_esc true (r ∷ s) = strip_from in_esc (not (leb 0x40 r && leb r 0x7e)) s
strip_from true false (r ∷ s) = strip_from false (r == b'[') s
strip_from false false (r ∷ s) = elim (r == 0x1b) [
  | true ↦ strip_from true false s
  | false ↦ r ∷ strip_from false false s
]

unfoldable pub strip_ansi : Bytes → Bytes
unfolding strip_from
strip_ansi s = strip_from false false s
