-- ===== src/Term/Line.antt =====
-- fakeshell/term/editor.go: the state of the line editor, its history, and the keys that change
-- the line. A string is the list of its runes. What the editor writes is a list of writes.
pub mod Inv
use scomp_agent.Common.{
  equal, ℕ, zero, suc, ◌+◌, ◌-◌, Bool, true, false, not, ◌&&◌, ◌||◌, Option, none, some, List, [],
  ◌∷◌, ◌++◌, ltb, leb, ◌==◌, if◌then◌else◌, Bytes, length, take, drop, get_elem?,
}
use scomp_agent.Term.Keys.{
  key_ctrl_d, key_right, key_left, key_home, key_end, key_delete, key_ctrl_a, key_ctrl_e,
  key_backspace, key_ctrl_k, key_ctrl_u, key_ctrl_w,
}

abbrev pub default_max_len : ℕ
default_max_len = 1024

abbrev pub max_history : ℕ
max_history = 200

pub data Outcome : Type 0 where
  line_read : Bytes → Outcome
  interrupt idle eof cancelled : Outcome

-- What the `select` of `ReadLine` delivers.
pub data Input : Type 0 where
  key : ℕ → Input
  done timeout closed : Input

-- The fields of `Editor` that do not change while it reads. `width` is what `e.width()` gives at a
-- render, behind what was written before: each render writes, so that the answers may differ at
-- every one. `clear` and `complete` are `none` where the field is nil. A completer gives the new line, the
-- new cursor, which may be negative (its sign is the flag), and the choices.
pub record Config : Type 0 where
  pub width : List Bytes → ℕ
  pub clear : Option Bytes
  pub max_len : ℕ
  pub complete : Option (Bytes → ℕ → Bytes × (Bool × ℕ) × List Bytes)

-- The editor's own fields, the local variables of `ReadLine`, and what was written.
pub record State : Type 0 where
  pub history : List Bytes
  pub cursor_row : ℕ
  pub line : Bytes
  pub pos : ℕ
  pub hist_idx : ℕ
  pub draft : Bytes
  pub out : List Bytes

-- `unicode.IsSpace`
unfoldable pub is_space : ℕ → Bool
is_space r =
    (leb 0x09 r && leb r 0x0d)
    || r == 0x20
    || r == 0x85
    || r == 0xa0
    || r == 0x1680
    || (leb 0x2000 r && leb r 0x200a)
    || r == 0x2028
    || r == 0x2029
    || r == 0x202f
    || r == 0x205f
    || r == 0x3000

-- `strings.TrimSpace(line) == ""`
unfoldable pub is_blank : Bytes → Bool
is_blank [] = true
is_blank (r ∷ line) = is_space r && is_blank line

-- The last recorded line is `line`.
unfoldable pub repeats : List Bytes → Bytes → Bool
repeats [] line = false
repeats (l ∷ []) line = equal l line
repeats (l ∷ l' ∷ history) line = repeats (l' ∷ history) line

unfoldable pub add_history : List Bytes → Bytes → List Bytes
unfolding is_blank repeats
add_history history line =
    if is_blank line
    then history
    else if repeats history line
    then history
    else let grown = history ++ line ∷ [] in
      (if ltb max_history (length grown) then drop (length grown - max_history) grown else grown)

-- `for start > 0 && test(line[start-1]) { start-- }`
unfoldable pub back_while : (ℕ → Bool) → Bytes → ℕ → ℕ
back_while test line zero = 0
back_while test line (suc k) = elim (get_elem? line k) [
  | none ↦ suc k
  | some r ↦ if test r then back_while test line k else suc k
]

abbrev pub line_at : List Bytes → ℕ → Bytes
line_at history i = elim (get_elem? history i) [ none ↦ [] | some l ↦ l ]

-- The two loops of `KeyCtrlW`: over the spaces before the cursor, then over the word before them.
unfoldable pub word_start : Bytes → ℕ → ℕ
unfolding back_while is_space
word_start line pos = back_while (λ r. not (is_space r)) line (back_while is_space line pos)

-- The line without its runes from `a` up to `b`, as `append(line[:a], line[b:]...)` leaves it, with
-- the cursor at `a`.
unfoldable pub cut : State → ℕ → ℕ → State
cut s a b = record s { line = take a s.line ++ drop b s.line; pos = a }

-- The cases that only change the line and the cursor; `none` for the other keys.
unfoldable pub edit : State → ℕ → Option State
edit s k =
    if k == key_ctrl_d || k == key_delete
    then some (if ltb s.pos (length s.line) then cut s s.pos (s.pos + 1) else s)
    else if k == key_backspace
    then some (if ltb 0 s.pos then cut s (s.pos - 1) s.pos else s)
    else if k == key_left
    then some (if ltb 0 s.pos then record s { pos = s.pos - 1 } else s)
    else if k == key_right
    then some (if ltb s.pos (length s.line) then record s { pos = s.pos + 1 } else s)
    else if k == key_home || k == key_ctrl_a
    then some (record s { pos = 0 })
    else if k == key_end || k == key_ctrl_e
    then some (record s { pos = length s.line })
    else if k == key_ctrl_u
    then some (record s { line = drop s.pos s.line; pos = 0 })
    else if k == key_ctrl_k
    then some (record s { line = take s.pos s.line })
    else if k == key_ctrl_w
    then some (cut s (word_start s.line s.pos) s.pos)
    else none

-- `KeyUp` and `KeyDown`; `none` is `continue`.
unfoldable pub older : State → Option State
older s =
    if s.hist_idx == 0
    then none
    else let l = line_at s.history (s.hist_idx - 1) in
      some (record s {
        draft = if s.hist_idx == length s.history then s.line else s.draft;
        hist_idx = s.hist_idx - 1;
        line = l;
        pos = length l;
      })

unfoldable pub newer : State → Option State
newer s =
    if leb (length s.history) s.hist_idx
    then none
    else let l =
        if s.hist_idx + 1 == length s.history
        then s.draft
        else line_at s.history (s.hist_idx + 1) in
      some (record s { hist_idx = s.hist_idx + 1; line = l; pos = length l })

unfoldable pub insert : State → ℕ → State
insert s k = record s { line = take s.pos s.line ++ k ∷ drop s.pos s.line; pos = s.pos + 1 }
