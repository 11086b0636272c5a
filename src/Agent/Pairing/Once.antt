-- ===== src/Agent/Pairing/Once.antt =====
-- Every pairing request is answered with at most one PIN.
use scomp_agent.Common.{
  ℕ, ◌≡◌, refl, sym, ap, inl, inr, Bool, true, false, ◌||◌, Option, none, some, List, [], ◌∷◌, ◌++◌,
  append_assoc, ltb, leb, ◌==◌, Bool-cases, Bytes, length,
}
use mathlib.Core.Path.{subst}
use scomp_agent.Agent.Pairing.{
  Op, ask, Prompter, max_requests, request, stop, prompt_for, new, connected, disconnected, send_by,
  send, trim_space, take_from, take_request, report, type_line, close_stdin, expire_at, expire,
  connect, disconnect, line, close, tick, apply, run,
}
use scomp_agent.Strings.{is_nil, trim_space}

-- The first list is the second one with items left out.
pub data Sublist : List Bytes → List Bytes → Type 0 where
  nil : Sublist [] []
  skip : {xs ys : List Bytes} {y : Bytes} → Sublist xs ys → Sublist xs (y ∷ ys)
  keep : {xs ys : List Bytes} {y : Bytes} → Sublist xs ys → Sublist (y ∷ xs) (y ∷ ys)

Sublist_none : (ys : List Bytes) → Sublist [] ys
Sublist_none [] = nil
Sublist_none (y ∷ ys) = skip (Sublist_none ys)

-- A list is left of whatever follows it.
Sublist-append : (xs ys : List Bytes) → Sublist xs (xs ++ ys)
Sublist-append [] ys = Sublist_none ys
Sublist-append (x ∷ xs) ys = keep (Sublist-append xs ys)

Sublist_front :
    {xs : List Bytes} (cs : List Bytes) {ys : List Bytes} → Sublist xs ys → Sublist xs (cs ++ ys)
Sublist_front [] s = s
Sublist_front (c ∷ cs) s = skip (Sublist_front cs s)

-- More items in the middle.
Sublist_more :
    (front : List Bytes) {xs : List Bytes} (cs bs : List Bytes)
    → Sublist xs (front ++ bs)
    → Sublist xs (front ++ (cs ++ bs))
Sublist_more [] cs bs s = Sublist_front cs s
Sublist_more (a ∷ front) cs bs (skip s) = skip (Sublist_more front cs bs s)
Sublist_more (a ∷ front) cs bs (keep s) = keep (Sublist_more front cs bs s)

-- The pairing of each message.
abbrev pub ids : List (ℕ × Bytes × Bytes) → List Bytes
ids [] = []
ids ((gen, id, pin) ∷ sent) = id ∷ ids sent

-- The pairings that a script asks for.
unfoldable pub asked_for : List Op → List Bytes
asked_for [] = []
asked_for (ask id ∷ ops) = id ∷ asked_for ops
asked_for (_ ∷ ops) = asked_for ops

-- The prompt that shows, if one does.
unfoldable pub pending : Bytes → List Bytes
pending [] = []
pending (r ∷ id) = (r ∷ id) ∷ []

-- `xs` is left of what was answered, what is prompted for, what waits, and what will be asked.
abbrev Covered : List Bytes → Prompter → List Bytes → Type 0
Covered xs p later = Sublist xs (ids p.sent ++ (pending p.pair_id ++ (p.requests ++ later)))

Covered-stop :
    (xs : List Bytes) (p : Prompter) (later : List Bytes)
    → Covered xs (stop p) later
    → Covered xs p later
unfolding pending
Covered-stop xs p later c = Sublist_more (ids p.sent) (pending p.pair_id) (p.requests ++ later) c

-- One more item behind two lists, and behind three.
Sublist_third :
    {xs : List Bytes} (a b : List Bytes) (y : Bytes) (l : List Bytes)
    → Sublist xs (a ++ (b ++ l))
    → Sublist xs (a ++ (b ++ y ∷ l))
Sublist_third {xs} a b y l s =
    subst (Sublist xs) (append_assoc a b (y ∷ l))
      (Sublist_more (a ++ b) (y ∷ []) l (subst (Sublist xs) (sym (append_assoc a b l)) s))

Sublist_fourth :
    {xs : List Bytes} (a b c : List Bytes) (y : Bytes) (l : List Bytes)
    → Sublist xs (a ++ (b ++ (c ++ l)))
    → Sublist xs (a ++ (b ++ (c ++ y ∷ l)))
Sublist_fourth {xs} a b c y l s =
    subst (λ m. Sublist xs (a ++ m)) (append_assoc b c (y ∷ l))
      (Sublist_third a (b ++ c) y l (subst (λ m. Sublist xs (a ++ m)) (sym (append_assoc b c l)) s))

Covered-request :
    (xs : List Bytes) (p : Prompter) (id : Bytes) (later : List Bytes)
    → Covered xs (request id p) later
    → Covered xs p (id ∷ later)
unfolding request
Covered-request xs p id later = elim (Bool-cases (ltb (length p.requests) max_requests)) [
  | inl room ↦ rw room λ c.
      subst (λ l. Sublist xs (ids p.sent ++ (pending p.pair_id ++ l)))
        (append_assoc p.requests (id ∷ []) later) c
  | inr full ↦ rw full (Sublist_fourth (ids p.sent) (pending p.pair_id) p.requests id later)
]

Sublist-pending :
    {xs : List Bytes} (front : List Bytes) (id : Bytes) (later : List Bytes)
    → Sublist xs (front ++ (pending id ++ later))
    → Sublist xs (front ++ id ∷ later)
unfolding pending
Sublist-pending front [] later s = Sublist_more front ([] ∷ []) later s
Sublist-pending front (r ∷ id) later s = s

Covered-prompt_for :
    (xs : List Bytes) (ttl now : ℕ) (id : Bytes) (p : Prompter) (later : List Bytes)
    → Covered xs (prompt_for ttl now id p) later
    → Sublist xs (ids p.sent ++ (pending p.pair_id ++ id ∷ (p.requests ++ later)))
unfolding prompt_for
Covered-prompt_for xs ttl now id p later = elim (Bool-cases p.no_stdin) [
  | inl b ↦ rw b (Sublist_third (ids p.sent) (pending p.pair_id) id rest)
  | inr b ↦ rw b (elim (Bool-cases (is_nil p.pair_id)) [
    | inl n ↦ rw n after_prompt
    | inr n ↦ rw n after_prompt
  ])
]
  where
    rest : List Bytes
    rest = p.requests ++ later

    after_prompt :
        Sublist xs (ids p.sent ++ (pending id ++ rest))
        → Sublist xs (ids p.sent ++ (pending p.pair_id ++ id ∷ rest))
    after_prompt c =
        Sublist_more (ids p.sent) (pending p.pair_id) (id ∷ rest)
          (Sublist-pending (ids p.sent) id rest c)

Covered-take_from :
    (xs : List Bytes) (ttl now : ℕ) (requests : List Bytes) (p : Prompter) (later : List Bytes)
    → p.requests ≡ requests
    → Covered xs (take_from ttl now requests p) later
    → Covered xs p later
unfolding take_from
Covered-take_from xs ttl now [] p later e c = c
Covered-take_from xs ttl now (id ∷ rest) p later e c =
    subst (λ l. Sublist xs (ids p.sent ++ (pending p.pair_id ++ (l ++ later)))) (sym e)
      (Covered-prompt_for xs ttl now id (record p { requests = rest }) later c)

ids-append :
    (sent : List (ℕ × Bytes × Bytes)) (gen : ℕ) (id pin : Bytes)
    → ids (sent ++ (gen, id, pin) ∷ []) ≡ ids sent ++ id ∷ []
ids-append [] gen id pin = refl
ids-append ((g, i, q) ∷ sent) gen id pin = ap (λ l. i ∷ l) (ids-append sent gen id pin)

pending_some : (id : Bytes) → is_nil id ≡ false → pending id ≡ id ∷ []
unfolding pending
pending_some [] h = cc
pending_some (r ∷ id) h = refl

Sublist_answered :
    {xs : List Bytes} (sent : List (ℕ × Bytes × Bytes)) (gen : ℕ) (id pin : Bytes) (l : List Bytes)
    → is_nil id ≡ false
    → Sublist xs (ids (sent ++ (gen, id, pin) ∷ []) ++ l)
    → Sublist xs (ids sent ++ (pending id ++ l))
Sublist_answered {xs} sent gen id pin l h s =
    subst (λ m. Sublist xs (ids sent ++ (m ++ l))) (sym (pending_some id h))
      (subst (Sublist xs) (append_assoc (ids sent) (id ∷ []) l)
        (subst (λ m. Sublist xs (m ++ l)) (ids-append sent gen id pin) s))

Covered-report :
    (xs : List Bytes) (o : Option ℕ) (accepts : Bool) (pin : Bytes) (p : Prompter)
    (later : List Bytes)
    → is_nil p.pair_id ≡ false
    → Covered xs (report (send_by o accepts p.pair_id pin (stop p))) later
    → Covered xs p later
unfolding report send_by pending
Covered-report xs none accepts pin p later h c = Covered-stop xs p later c
Covered-report xs (some gen) true pin p later h c =
    Sublist_answered p.sent gen p.pair_id pin (p.requests ++ later) h c
Covered-report xs (some gen) false pin p later h c =
    Sublist_answered p.sent gen p.pair_id pin (p.requests ++ later) h c

pub right_false : (a : Bool) {b : Bool} → (a || b) ≡ false → b ≡ false
right_false true h = cc
right_false false h = h

Covered-type_line :
    (xs : List Bytes) (l : Bytes) (accepts : Bool) (p : Prompter) (later : List Bytes)
    → Covered xs (type_line l accepts p) later
    → Covered xs p later
unfolding type_line send
Covered-type_line xs l accepts p later = elim (Bool-cases (p.no_stdin || is_nil p.pair_id)) [
  | inl idle ↦ rw idle λ c. c
  | inr open_prompt ↦ rw open_prompt (elim (Bool-cases (is_nil (trim_space l))) [
    | inl n ↦ rw n (Covered-stop xs p later)
    | inr n ↦ rw n (
        Covered-report xs p.submit accepts (trim_space l) p later
          (right_false p.no_stdin open_prompt))
  ])
]

Covered-close_stdin :
    (xs : List Bytes) (p : Prompter) (later : List Bytes)
    → Covered xs (close_stdin p) later
    → Covered xs p later
unfolding close_stdin
Covered-close_stdin xs p later = elim (Bool-cases p.no_stdin) [
  | inl b ↦ rw b λ c. c
  | inr b ↦ rw b (elim (Bool-cases (is_nil p.pair_id)) [
    | inl n ↦ rw n (Covered-stop xs p later)
    | inr n ↦ rw n (Covered-stop xs p later)
  ])
]

Covered-expire_at :
    (xs : List Bytes) (now : ℕ) (o : Option ℕ) (p : Prompter) (later : List Bytes)
    → Covered xs (expire_at now o p) later
    → Covered xs p later
unfolding expire_at
Covered-expire_at xs now none p later = λ c. c
Covered-expire_at xs now (some d) p later = elim (Bool-cases (leb d now)) [
  | inl b ↦ rw b (Covered-stop xs p later)
  | inr b ↦ rw b λ c. c
]

Covered-disconnected :
    (xs : List Bytes) (gen : ℕ) (p : Prompter) (later : List Bytes)
    → Covered xs (disconnected gen p) later
    → Covered xs p later
unfolding disconnected
Covered-disconnected xs gen p later = elim (Bool-cases (p.gen == gen)) [
  | inl b ↦ rw b λ c. c
  | inr b ↦ rw b λ c. c
]

Covered-apply :
    (xs : List Bytes) (ttl : ℕ) (p : Prompter) (op : Op) (ops : List Op)
    → Covered xs (apply ttl p op) (asked_for ops)
    → Covered xs p (asked_for (op ∷ ops))
unfolding apply asked_for connected take_request expire
Covered-apply xs ttl p connect ops c = c
Covered-apply xs ttl p (disconnect gen) ops c = Covered-disconnected xs gen p (asked_for ops) c
Covered-apply xs ttl p (ask id) ops c = Covered-request xs p id (asked_for ops) c
Covered-apply xs ttl p (Op.take now) ops c =
    Covered-take_from xs ttl now p.requests p (asked_for ops) refl c
Covered-apply xs ttl p (line l accepts) ops c = Covered-type_line xs l accepts p (asked_for ops) c
Covered-apply xs ttl p close ops c = Covered-close_stdin xs p (asked_for ops) c
Covered-apply xs ttl p (tick now) ops c = Covered-expire_at xs now p.deadline p (asked_for ops) c

run-Covered :
    (ttl : ℕ) (p : Prompter) (ops : List Op) → Covered (ids (run ttl p ops).sent) p (asked_for ops)
unfolding run asked_for
run-Covered ttl p [] = Sublist-append (ids p.sent) _
run-Covered ttl p (op ∷ ops) =
    Covered-apply (ids (run ttl (apply ttl p op) ops).sent) ttl p op ops
      (run-Covered ttl (apply ttl p op) ops)

-- In whatever order requests arrive and are taken, lines are typed, timers fire and connections
-- come and go, the pairings that a PIN is submitted for are, in order, some of those that were
-- asked for: no request is answered twice, and none that the relay did not make.
pub run-Sublist : (ttl : ℕ) (ops : List Op) → Sublist (ids (run ttl new ops).sent) (asked_for ops)
unfolding pending
run-Sublist ttl ops = run-Covered ttl new ops
