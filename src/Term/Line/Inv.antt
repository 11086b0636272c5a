-- ===== src/Term/Line/Inv.antt =====
-- The invariant of the line editor's state, and that editing keeps it.
use scomp_agent.Common.{
  ℕ, zero, suc, ◌+◌, ◌-◌, ◌≤◌, ◌<◌, ◌≡◌, Bool, not, some, List, [], ◌∷◌, ◌++◌, arith, Bytes, length,
  take, drop, length-append, length-take, length-drop,
}
use scomp_agent.Term.Line.{
  cut, insert, State, back_while, edit, line_at, max_history, is_space, word_start, older, newer,
}

-- Every line of the history is at most `lim` runes long.
abbrev pub AllShort : ℕ → List Bytes → Type 0
AllShort lim [] = Unit
AllShort lim (l ∷ ls) = (length l ≤ lim) × AllShort lim ls

pub record IsValid (lim : ℕ) (s : State) : Type 0 where
  pub pos_le : s.pos ≤ length s.line
  pub line_le : length s.line ≤ lim
  pub draft_le : length s.draft ≤ lim
  pub hist_idx_le : s.hist_idx ≤ length s.history
  pub lines_le : AllShort lim s.history
  pub history_le : length s.history ≤ max_history

pub back_while-le : (test : ℕ → Bool) (line : Bytes) (k : ℕ) → back_while test line k ≤ k
unfolding back_while
back_while-le test line zero = omega arith
back_while-le test line (suc k) = ground (arith, back_while-le test line k)

pub word_start-le : (line : Bytes) (pos : ℕ) → word_start line pos ≤ pos
unfolding word_start
word_start-le line pos = omega (
  arith,
  back_while-le (λ r. not (is_space r)) line (back_while is_space line pos),
  back_while-le is_space line pos,
)

pub length-line_at :
    (lim : ℕ) (history : List Bytes) (i : ℕ)
    → AllShort lim history
    → length (line_at history i) ≤ lim
length-line_at lim [] i h = omega arith
length-line_at lim (l ∷ ls) zero h = h.0
length-line_at lim (l ∷ ls) (suc i) h = length-line_at lim ls i h.1

length-cut :
    (n m : ℕ) (line : Bytes)
    → n ≤ m
    → m ≤ length line
    → length (take n line ++ drop m line) ≡ n + (length line - m)
length-cut n m line h h' = omega (
  arith,
  length-append {0} (take n line) (drop m line),
  length-take {0} n line,
  length-drop {0} m line,
)

pub cut-IsValid :
    (lim : ℕ) (s : State) (a b : ℕ)
    → IsValid lim s
    → a ≤ b
    → b ≤ length s.line
    → IsValid lim (cut s a b)
unfolding cut
cut-IsValid lim s a b v h h' = ground (arith, length-cut a b s.line)

pub edit-IsValid :
    (lim : ℕ) (s : State) (k : ℕ) {s' : State} → IsValid lim s → edit s k ≡ some s' → IsValid lim s'
unfolding edit
edit-IsValid lim s k v e = ground (
  arith,
  cut-IsValid lim s s.pos (s.pos + 1) v,
  cut-IsValid lim s (s.pos - 1) s.pos v,
  cut-IsValid lim s (word_start s.line s.pos) s.pos v,
  word_start-le s.line s.pos,
  length-take {0} s.pos s.line,
  length-drop {0} s.pos s.line,
)

pub insert-IsValid :
    (lim : ℕ) (s : State) (k : ℕ) → IsValid lim s → length s.line < lim → IsValid lim (insert s k)
unfolding insert
insert-IsValid lim s k v room = ground (
  arith,
  length-append {0} (take s.pos s.line) (k ∷ drop s.pos s.line),
  length-take {0} s.pos s.line,
  length-drop {0} s.pos s.line,
)

pub older-IsValid :
    (lim : ℕ) (s : State) {s' : State} → IsValid lim s → older s ≡ some s' → IsValid lim s'
unfolding older
older-IsValid lim s v e = ground (arith, length-line_at lim s.history (s.hist_idx - 1) v.lines_le)

pub newer-IsValid :
    (lim : ℕ) (s : State) {s' : State} → IsValid lim s → newer s ≡ some s' → IsValid lim s'
unfolding newer
newer-IsValid lim s v e = ground (arith, length-line_at lim s.history (s.hist_idx + 1) v.lines_le)
