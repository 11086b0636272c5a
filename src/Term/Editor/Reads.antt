-- ===== src/Term/Editor/Reads.antt =====
-- fakeshell/term/editor.go: a whole `ReadLine`, what its result promises, and that it ends.
use scomp_agent.Common.{
  ℕ, ◌≤◌, ◌≡◌, refl, sym, ap, ◌∙◌, ◌⊎◌, inl, inr, Option, some, List, [], ◌∷◌, ◌++◌, arith, Bytes,
  length,
}
use mathlib.Core.Path.{subst}
use scomp_agent.Term.Keys.{key_enter, key_ctrl_c}
use scomp_agent.Term.Line.{
  State, Config, Outcome, idle, eof, cancelled, Input, key, done, timeout, closed, max_history,
}
use scomp_agent.Term.Line.Inv.{AllShort, IsValid}
use scomp_agent.Term.Editor.{Next, go, stop, press, limit, read_keys, read_line, start}
use scomp_agent.Term.Render.{render}
use scomp_agent.Term.Editor.Inv.{press-Stays, Stays, Kept, render-IsValid}

-- The inputs that end the line, whatever it holds.
abbrev pub Ends : Input → Type 0
Ends (key k) = (k ≡ key_enter) ⊎ (k ≡ key_ctrl_c)
Ends done = Unit
Ends timeout = Unit
Ends closed = Unit

abbrev Returns : ℕ → Option (Outcome × State) → Type 0
Returns lim o = (r : Outcome × State) × (o ≡ some r) × Kept lim r

abbrev pub IsStop : Next → Type 0
IsStop (go s) = ⊥
IsStop (stop o s) = Unit

enter-IsStop : (c : Config) (prompt : Bytes) (s : State) → IsStop (press c prompt s key_enter)
unfolding press
enter-IsStop c prompt s = tt

ctrl_c-IsStop : (c : Config) (prompt : Bytes) (s : State) → IsStop (press c prompt s key_ctrl_c)
unfolding press
ctrl_c-IsStop c prompt s = tt

go_on-Returns :
    (lim : ℕ) (n : Next) (rest : State → Option (Outcome × State))
    → Stays lim n
    → ((s : State) → n ≡ go s → IsValid lim s → Returns lim (rest s))
    → Returns lim (elim n [ go s ↦ rest s | stop o s ↦ some (o, s) ])
go_on-Returns lim (go s) rest v h = h s refl v
go_on-Returns lim (stop o s) rest v h = ((o, s), refl, v)

Ends-Returns :
    (c : Config) (prompt : Bytes) (i : Input) (back : List Input) (s : State)
    → Ends i
    → IsValid (limit c) s
    → Returns (limit c) (read_keys c prompt s (i ∷ back))
unfolding read_keys
Ends-Returns c prompt (key k) back s (inl e) v =
    go_on-Returns (limit c) (press c prompt s k) (λ s'. read_keys c prompt s' back)
      (press-Stays c prompt s k v)
      λ s' e' w.
        absurd (subst IsStop (ap (press c prompt s) (sym e) ∙ e') (enter-IsStop c prompt s))
Ends-Returns c prompt (key k) back s (inr e) v =
    go_on-Returns (limit c) (press c prompt s k) (λ s'. read_keys c prompt s' back)
      (press-Stays c prompt s k v)
      λ s' e' w.
        absurd (subst IsStop (ap (press c prompt s) (sym e) ∙ e') (ctrl_c-IsStop c prompt s))
Ends-Returns c prompt done back s h v = ((cancelled, s), refl, (tt, v.lines_le, v.history_le))
Ends-Returns c prompt timeout back s h v = ((idle, s), refl, (tt, v.lines_le, v.history_le))
Ends-Returns c prompt closed back s h v = ((eof, s), refl, (tt, v.lines_le, v.history_le))

read_keys-Returns :
    (c : Config) (prompt : Bytes) (front : List Input) (i : Input) (back : List Input) (s : State)
    → Ends i
    → IsValid (limit c) s
    → Returns (limit c) (read_keys c prompt s (front ++ i ∷ back))
unfolding read_keys
read_keys-Returns c prompt [] i back s h v = Ends-Returns c prompt i back s h v
read_keys-Returns c prompt (key k ∷ front) i back s h v =
    go_on-Returns (limit c) (press c prompt s k) (λ s'. read_keys c prompt s' (front ++ i ∷ back))
      (press-Stays c prompt s k v) λ s' e w. read_keys-Returns c prompt front i back s' h w
read_keys-Returns c prompt (done ∷ front) i back s h v =
    Ends-Returns c prompt done (front ++ i ∷ back) s tt v
read_keys-Returns c prompt (timeout ∷ front) i back s h v =
    Ends-Returns c prompt timeout (front ++ i ∷ back) s tt v
read_keys-Returns c prompt (closed ∷ front) i back s h v =
    Ends-Returns c prompt closed (front ++ i ∷ back) s tt v

abbrev Ended : Option (Outcome × State) → Type 0
Ended o = (r : Outcome × State) × (o ≡ some r)

go_on-Ended :
    (n : Next) (rest : State → Option (Outcome × State))
    → ((s : State) → n ≡ go s → Ended (rest s))
    → Ended (elim n [ go s ↦ rest s | stop o s ↦ some (o, s) ])
go_on-Ended (go s) rest h = h s refl
go_on-Ended (stop o s) rest h = ((o, s), refl)

Ends-Ended :
    (c : Config) (prompt : Bytes) (i : Input) (back : List Input) (s : State)
    → Ends i
    → Ended (read_keys c prompt s (i ∷ back))
unfolding read_keys
Ends-Ended c prompt (key k) back s (inl e) =
    go_on-Ended (press c prompt s k) (λ s'. read_keys c prompt s' back)
      λ s' e'. absurd (subst IsStop (ap (press c prompt s) (sym e) ∙ e') (enter-IsStop c prompt s))
Ends-Ended c prompt (key k) back s (inr e) =
    go_on-Ended (press c prompt s k) (λ s'. read_keys c prompt s' back)
      λ s' e'. absurd (subst IsStop (ap (press c prompt s) (sym e) ∙ e') (ctrl_c-IsStop c prompt s))
Ends-Ended c prompt done back s h = ((cancelled, s), refl)
Ends-Ended c prompt timeout back s h = ((idle, s), refl)
Ends-Ended c prompt closed back s h = ((eof, s), refl)

read_keys-Ended :
    (c : Config) (prompt : Bytes) (front : List Input) (i : Input) (back : List Input) (s : State)
    → Ends i
    → Ended (read_keys c prompt s (front ++ i ∷ back))
unfolding read_keys
read_keys-Ended c prompt [] i back s h = Ends-Ended c prompt i back s h
read_keys-Ended c prompt (key k ∷ front) i back s h =
    go_on-Ended (press c prompt s k) (λ s'. read_keys c prompt s' (front ++ i ∷ back))
      λ s' e. read_keys-Ended c prompt front i back s' h
read_keys-Ended c prompt (done ∷ front) i back s h =
    Ends-Ended c prompt done (front ++ i ∷ back) s tt
read_keys-Ended c prompt (timeout ∷ front) i back s h =
    Ends-Ended c prompt timeout (front ++ i ∷ back) s tt
read_keys-Ended c prompt (closed ∷ front) i back s h =
    Ends-Ended c prompt closed (front ++ i ∷ back) s tt

-- Once Enter, Ctrl-C, the idle timer, a closed channel or a done context is among the inputs, reading
-- a line returns, whatever else arrives, whatever the completer answers and whatever the history is.
pub read_line_returns :
    (c : Config) (prompt : Bytes) (history : List Bytes) (front : List Input) (i : Input)
    (back : List Input)
    → Ends i
    → (r : Outcome × State) × (read_line c prompt history (front ++ i ∷ back) ≡ some r)
unfolding read_line
read_line_returns c prompt history front i back e =
    read_keys-Ended c prompt front i back (render c prompt 0 (start history)) e

start-IsValid :
    (lim : ℕ) (history : List Bytes)
    → AllShort lim history
    → length history ≤ max_history
    → IsValid lim (start history)
start-IsValid lim history h few = record {
  pos_le = omega arith;
  line_le = omega arith;
  draft_le = omega arith;
  hist_idx_le = omega arith;
  lines_le = h;
  history_le = few;
}

-- Once Enter, Ctrl-C, the idle timer, a closed channel or a done context is among the inputs, reading
-- a line with a history of at most 200 lines that fit the limit returns, whatever else arrives and
-- whatever the completer answers; a returned line fits the limit too, and the history again has at
-- most 200 lines that do.
pub read_line_lem :
    (c : Config) (prompt : Bytes) (history : List Bytes) (front : List Input) (i : Input)
    (back : List Input)
    → AllShort (limit c) history
    → length history ≤ max_history
    → Ends i
    → (r : Outcome × State) × (read_line c prompt history (front ++ i ∷ back) ≡ some r)
      × Kept (limit c) r
unfolding read_line
read_line_lem c prompt history front i back h few e =
    read_keys-Returns c prompt front i back _ e
      (render-IsValid (limit c) c prompt 0 (start history) (start-IsValid (limit c) history h few))
