-- ===== src/Term/Editor/Inv.antt =====
-- Reading a line keeps the editor's bounds, whatever keys arrive and whatever the completer says.
use scomp_agent.Common.{
  ℕ, zero, suc, ◌-◌, ◌≤◌, min, ◌≡◌, refl, Bool, true, false, ◌&&◌, Option, none, some, List, [],
  ◌∷◌, ◌++◌, arith, leb, ◌==◌, if◌then◌else◌, leb→lt, Bytes, length, drop, length-append,
  length-drop,
}
use scomp_agent.Term.Keys.{
  key_up, key_down, key_ctrl_c, key_ctrl_d, key_tab, key_ctrl_l, key_enter, printable,
}
use scomp_agent.Term.Line.{
  Outcome, line_read, interrupt, idle, eof, cancelled, State, Config, max_history, add_history,
  edit, older, newer, insert,
}
use scomp_agent.Term.Line.Inv.{
  AllShort, IsValid, edit-IsValid, insert-IsValid, older-IsValid, newer-IsValid,
}
use scomp_agent.Term.Render.{render}
use scomp_agent.Term.Editor.{
  Next, go, stop, press, limit, list_choices, completed, shown_after, press_rest, press_edit,
}

drop-AllShort : (lim n : ℕ) (ls : List Bytes) → AllShort lim ls → AllShort lim (drop n ls)
drop-AllShort lim zero ls h = h
drop-AllShort lim (suc n) [] h = tt
drop-AllShort lim (suc n) (l ∷ ls) h = drop-AllShort lim n ls h.1

concat-AllShort :
    (lim : ℕ) (ls : List Bytes) (l : Bytes)
    → AllShort lim ls
    → length l ≤ lim
    → AllShort lim (ls ++ l ∷ [])
concat-AllShort lim [] l h e = (e, tt)
concat-AllShort lim (m ∷ ls) l h e = (h.0, concat-AllShort lim ls l h.1 e)

-- The history stays short, and so do its lines.
pub add_history-AllShort :
    (lim : ℕ) (history : List Bytes) (line : Bytes)
    → AllShort lim history
    → length history ≤ max_history
    → length line ≤ lim
    → AllShort lim (add_history history line) × (length (add_history history line) ≤ max_history)
unfolding add_history
add_history-AllShort lim history line h few short =
    let grown = history ++ line ∷ [] in
    ground (
      arith,
      concat-AllShort lim history line h short,
      drop-AllShort lim (length grown - max_history) grown,
      length-drop {A = Bytes} (length grown - max_history) grown,
      length-append {A = Bytes} history (line ∷ []),
    )

pub render-IsValid :
    (lim : ℕ) (c : Config) (prompt : Bytes) (pos : ℕ) (s : State)
    → IsValid lim s
    → IsValid lim (render c prompt pos s)
unfolding render
render-IsValid lim c prompt pos s v = record {
  pos_le = v.pos_le;
  line_le = v.line_le;
  draft_le = v.draft_le;
  hist_idx_le = v.hist_idx_le;
  lines_le = v.lines_le;
  history_le = v.history_le;
}

-- The line of an outcome that has one.
abbrev pub Fits : ℕ → Outcome → Type 0
Fits lim (line_read l) = length l ≤ lim
Fits lim interrupt = Unit
Fits lim idle = Unit
Fits lim eof = Unit
Fits lim cancelled = Unit

abbrev pub Kept : ℕ → Outcome × State → Type 0
Kept lim (o, s) = Fits lim o × AllShort lim s.history × (length s.history ≤ max_history)

-- What holds of a state that goes on, and of one in which the line has ended.
abbrev pub Stays : ℕ → Next → Type 0
Stays lim (go s) = IsValid lim s
Stays lim (stop o s) = Kept lim (o, s)

list_choices-IsValid :
    (lim : ℕ) (c : Config) (prompt : Bytes) (ls : List Bytes) (s : State)
    → IsValid lim s
    → IsValid lim (list_choices c prompt ls s)
unfolding list_choices render
list_choices-IsValid lim c prompt [] s v = v
list_choices-IsValid lim c prompt (l ∷ ls) s v = record {
  pos_le = v.pos_le;
  line_le = v.line_le;
  draft_le = v.draft_le;
  hist_idx_le = v.hist_idx_le;
  lines_le = v.lines_le;
  history_le = v.history_le;
}

completed-IsValid :
    (c : Config) (prompt : Bytes) (r : Bytes × (Bool × ℕ) × List Bytes) (s : State)
    → IsValid (limit c) s
    → IsValid (limit c) (completed c prompt r s)
unfolding completed
completed-IsValid c prompt (new_line, new_pos, choices) s v =
    list_choices-IsValid (limit c) c prompt choices _ (taken)
  where
    taken : IsValid (limit c) (
        if leb (length new_line) (limit c)
        then record s {
          line = new_line;
          pos = if new_pos.0 then 0 else min new_pos.1 (length new_line);
        }
        else s)
    taken = ground arith

shown_after-Stays :
    (lim : ℕ) (c : Config) (prompt : Bytes) (s : State) (o : Option State)
    → IsValid lim s
    → ((s' : State) → o ≡ some s' → IsValid lim s')
    → Stays lim (shown_after c prompt s o)
unfolding shown_after
shown_after-Stays lim c prompt s none v h = v
shown_after-Stays lim c prompt s (some s') v h = render-IsValid lim c prompt s'.pos s' (h s' refl)

Stays-if :
    (lim : ℕ) (b : Bool) (x y : Next)
    → Stays lim x
    → (b ≡ false → Stays lim y)
    → Stays lim (if b then x else y)
Stays-if lim true x y h k = h
Stays-if lim false x y h k = k refl

complete-Stays :
    (c : Config) (prompt : Bytes) (s : State)
    (o : Option (Bytes → ℕ → Bytes × (Bool × ℕ) × List Bytes))
    → IsValid (limit c) s
    → Stays (limit c) (elim o [
      | none ↦ go s
      | some f ↦ shown_after c prompt s (some (completed c prompt (f s.line s.pos) s))
    ])
unfolding shown_after
complete-Stays c prompt s none v = v
complete-Stays c prompt s (some f) v =
    render-IsValid (limit c) c prompt _ _ (completed-IsValid c prompt (f s.line s.pos) s v)

insert-Stays :
    (c : Config) (prompt : Bytes) (s : State) (k : ℕ)
    → IsValid (limit c) s
    → (leb (limit c) (length s.line)) ≡ false
    → Stays (limit c) (shown_after c prompt s (some (insert s k)))
unfolding shown_after
insert-Stays c prompt s k v room =
    render-IsValid (limit c) c prompt _ _ (insert-IsValid (limit c) s k v (leb→lt _ _ room))

press_rest-Stays :
    (c : Config) (prompt : Bytes) (s : State) (k : ℕ)
    → IsValid (limit c) s
    → Stays (limit c) (press_rest c prompt s k)
unfolding press_rest
press_rest-Stays c prompt s k v =
    Stays-if lim (k == key_ctrl_l) _ _ (render-IsValid lim c prompt s.pos _ (moved v)) λ _.
      Stays-if lim (k == key_up) _ _
        (shown_after-Stays lim c prompt s (older s) v (λ s' e. older-IsValid lim s v e))
        λ _.
          Stays-if lim (k == key_down) _ _
            (shown_after-Stays lim c prompt s (newer s) v (λ s' e. newer-IsValid lim s v e))
            λ _. Stays-if lim (k == key_tab) _ _ (complete-Stays c prompt s c.complete v) λ _.
              Stays-if lim (printable k) _ _
                (Stays-if lim (leb lim (length s.line)) _ _ (moved v) (insert-Stays c prompt s k v))
                λ _. v
  where
    lim : ℕ
    lim = limit c

    moved :
        {row : ℕ} {out : List Bytes}
        → IsValid lim s
        → IsValid lim (record s { cursor_row = row; out = out })
    moved w = record {
      pos_le = w.pos_le;
      line_le = w.line_le;
      draft_le = w.draft_le;
      hist_idx_le = w.hist_idx_le;
      lines_le = w.lines_le;
      history_le = w.history_le;
    }

press_edit-Stays :
    (c : Config) (prompt : Bytes) (s : State) (k : ℕ) (o : Option State)
    → IsValid (limit c) s
    → ((s' : State) → o ≡ some s' → IsValid (limit c) s')
    → Stays (limit c) (press_edit c prompt s k o)
unfolding press_edit
press_edit-Stays c prompt s k none v h = press_rest-Stays c prompt s k v
press_edit-Stays c prompt s k (some s') v h =
    render-IsValid (limit c) c prompt s'.pos s' (h s' refl)

pub press-Stays :
    (c : Config) (prompt : Bytes) (s : State) (k : ℕ)
    → IsValid (limit c) s
    → Stays (limit c) (press c prompt s k)
unfolding press render
press-Stays c prompt s k v =
    let grown = add_history-AllShort lim s.history s.line v.lines_le v.history_le v.line_le in
    Stays-if lim (k == key_enter) _ _ (v.line_le, grown.0, grown.1)
      λ _.
        Stays-if lim (k == key_ctrl_c) _ _ (tt, v.lines_le, v.history_le)
          λ _.
            Stays-if lim (k == key_ctrl_d && length s.line == 0) _ _ (tt, v.lines_le, v.history_le)
              λ _. press_edit-Stays c prompt s k (edit s k) v (λ s' e. edit-IsValid lim s k v e)
  where
    lim : ℕ
    lim = limit c
