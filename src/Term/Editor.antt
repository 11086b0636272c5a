-- ===== src/Term/Editor.antt =====
-- fakeshell/term/editor.go: `ReadLine`. A context that is done, the idle timer and a closed key
-- channel are inputs beside the keys.
pub mod Inv
pub mod Reads
use scomp_agent.Common.{
  ℕ, ◌+◌, ◌-◌, ◌^◌, min, Bool, not, ◌&&◌, Option, none, some, List, [], ◌∷◌, ◌++◌, leb, ◌==◌,
  if◌then◌else◌, Bytes, length, text,
}
use scomp_agent.Term.Keys.{
  printable, key_ctrl_c, key_enter, key_up, key_down, key_ctrl_d, key_tab, key_ctrl_l,
}
use scomp_agent.Term.Line.{
  Config, State, default_max_len, Outcome, line_read, interrupt, idle, eof, cancelled, Input, key,
  done, timeout, closed, add_history, edit, older, newer, insert,
}
use scomp_agent.Term.Render.{render, write}

pub data Next : Type 0 where
  go : State → Next
  stop : Outcome → State → Next

abbrev pub limit : Config → ℕ
limit c = if c.max_len == 0 then default_max_len else c.max_len

join_choices : List Bytes → Bytes
join_choices [] = []
join_choices (l ∷ []) = l
join_choices (l ∷ l' ∷ ls) = l ++ (text "  " ++ join_choices (l' ∷ ls))

pub list_choices : Config → Bytes → List Bytes → State → State
unfolding join_choices
list_choices c prompt [] s = s
list_choices c prompt (l ∷ ls) s =
    record (write (text "\r\n" ++ (join_choices (l ∷ ls) ++ text "\r\n"))
      (render c prompt (length s.line) s)) { cursor_row = 0 }

-- `KeyTab`, with what the completer answers.
unfoldable pub completed : Config → Bytes → Bytes × (Bool × ℕ) × List Bytes → State → State
unfolding list_choices
completed c prompt (new_line, new_pos, choices) s = list_choices c prompt choices (
    if leb (length new_line) (limit c)
    then record s {
      line = new_line;
      pos = if new_pos.0 then 0 else min new_pos.1 (length new_line);
    }
    else s)

pub shown_after : Config → Bytes → State → Option State → Next
shown_after c prompt s none = go s
shown_after c prompt s (some s') = go (render c prompt s'.pos s')

pub press_rest : Config → Bytes → State → ℕ → Next
press_rest c prompt s k =
    if k == key_ctrl_l
    then (let cleared =
          write (elim c.clear [ none ↦ 0x1b ∷ (text "[H" ++ 0x1b ∷ text "[2J") | some p ↦ p ]) s in
        go (render c prompt s.pos (record cleared { cursor_row = 0 })))
    else if k == key_up
    then shown_after c prompt s (older s)
    else if k == key_down
    then shown_after c prompt s (newer s)
    else if k == key_tab
    then elim c.complete [
      | none ↦ go s
      | some f ↦ shown_after c prompt s (some (completed c prompt (f s.line s.pos) s))
    ]
    else if printable k
    then (if leb (limit c) (length s.line)
        then go (write (0x07 ∷ []) s)
        else shown_after c prompt s (some (insert s k)))
    else go s

-- The keys behind those that end the line, first those that `edit` handles.
pub press_edit : Config → Bytes → State → ℕ → Option State → Next
press_edit c prompt s k (some s') = go (render c prompt s'.pos s')
press_edit c prompt s k none = press_rest c prompt s k

-- One key: the switch of `ReadLine`, and the `render` behind it where the case does not `continue`.
unfoldable pub press : Config → Bytes → State → ℕ → Next
press c prompt s k =
    if k == key_enter
    then (let shown = write (text "\r\n") (render c prompt (length s.line) s) in
        stop (line_read s.line)
          (record shown { cursor_row = 0; history = add_history s.history s.line }))
    else if k == key_ctrl_c
    then stop interrupt
        (record (write (text "^C\r\n") (render c prompt (length s.line) s)) { cursor_row = 0 })
    else if k == key_ctrl_d && length s.line == 0
    then stop eof (record (write (text "\r\n") s) { cursor_row = 0 })
    else press_edit c prompt s k (edit s k)

-- `ReadLine`; `none` means that the inputs are used up and it still waits.
unfoldable pub read_keys : Config → Bytes → State → List Input → Option (Outcome × State)
read_keys c prompt s [] = none
read_keys c prompt s (done ∷ inputs) = some (cancelled, s)
read_keys c prompt s (timeout ∷ inputs) = some (idle, s)
read_keys c prompt s (closed ∷ inputs) = some (eof, s)
read_keys c prompt s (key k ∷ inputs) = elim (press c prompt s k) [
  | go s' ↦ read_keys c prompt s' inputs
  | stop o s' ↦ some (o, s')
]

abbrev pub start : List Bytes → State
start history = record {
  history = history;
  cursor_row = 0;
  line = [];
  pos = 0;
  hist_idx = length history;
  draft = [];
  out = [];
}

unfoldable pub read_line : Config → Bytes → List Bytes → List Input → Option (Outcome × State)
unfolding read_keys
read_line c prompt history inputs = read_keys c prompt (render c prompt 0 (start history)) inputs
