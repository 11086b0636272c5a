-- ===== src/Agent/Pairing/Sender.antt =====
-- The current connection's sender stays until that connection ends.
use scomp_agent.Common.{
  ℕ, suc, ◌+◌, ◌%◌, ◌^◌, ◌≤◌, ◌<◌, ◌≡◌, refl, ap, ◌∙◌, inl, inr, Bool, true, false, ◌||◌, Option,
  none, some, List, [], ◌∷◌, ◌++◌, arith, ltb, leb, ◌==◌, if◌then◌else◌, Bool-cases, Bytes, length,
}
use scomp_agent.Agent.Pairing.{
  Prompter, max_requests, disconnected, request, stop, send_by, send, trim_space, prompt_for,
  take_from, take_request, report, type_line, close_stdin, expire_at, expire, Op, connect,
  disconnect, ask, line, close, tick, apply, run, new, connected,
}
use scomp_agent.Agent.Pairing.Ends.{run-append}
use scomp_agent.Strings.{is_nil, trim_space}

-- How many connections a script makes.
unfoldable pub connects : List Op → ℕ
connects [] = 0
connects (connect ∷ ops) = suc (connects ops)
connects (_ ∷ ops) = connects ops

-- No connection is made, and those that end have a generation of at most `n`.
unfoldable pub OnlyOlderEnd : ℕ → List Op → Type 0
OnlyOlderEnd n [] = Unit
OnlyOlderEnd n (connect ∷ ops) = ⊥
OnlyOlderEnd n (disconnect gen ∷ ops) = (gen ≤ n) × OnlyOlderEnd n ops
OnlyOlderEnd n (_ ∷ ops) = OnlyOlderEnd n ops

-- The sender and the generation are those of the first prompter.
abbrev SameLink : Prompter → Prompter → Type 0
SameLink p q = (q.gen ≡ p.gen) × (q.submit ≡ p.submit)

SameLink-if :
    (p : Prompter) (b : Bool) (x y : Prompter)
    → SameLink p x
    → SameLink p y
    → SameLink p (if b then x else y)
SameLink-if p true x y h k = h
SameLink-if p false x y h k = k

SameLink-take_from :
    (ttl now : ℕ) (p : Prompter) (requests : List Bytes) → SameLink p (take_from ttl now requests p)
unfolding take_from prompt_for
SameLink-take_from ttl now p [] = (refl, refl)
SameLink-take_from ttl now p (id ∷ rest) =
    SameLink-if p p.no_stdin _ _ (refl, refl)
      (elim (Bool-cases (is_nil p.pair_id)) [
        | inl b ↦ rw b (refl, refl)
        | inr b ↦ rw b (refl, refl)
      ])

SameLink-send_by :
    (p : Prompter) (o : Option ℕ) (accepts : Bool) (id pin : Bytes)
    → SameLink p (report (send_by o accepts id pin (stop p)))
unfolding report send_by
SameLink-send_by p none accepts id pin = (refl, refl)
SameLink-send_by p (some gen) true id pin = (refl, refl)
SameLink-send_by p (some gen) false id pin = (refl, refl)

SameLink-type_line :
    (p : Prompter) (l : Bytes) (accepts : Bool) → SameLink p (type_line l accepts p)
unfolding type_line send
SameLink-type_line p l accepts =
    SameLink-if p (p.no_stdin || is_nil p.pair_id) p _ (refl, refl)
      (SameLink-if p (is_nil (trim_space l)) _ _ (refl, refl)
        (SameLink-send_by p p.submit accepts p.pair_id (trim_space l)))

SameLink-close_stdin : (p : Prompter) → SameLink p (close_stdin p)
unfolding close_stdin
SameLink-close_stdin p =
    SameLink-if p p.no_stdin p _ (refl, refl)
      (elim (Bool-cases (is_nil p.pair_id)) [
        | inl b ↦ rw b (refl, refl)
        | inr b ↦ rw b (refl, refl)
      ])

SameLink-expire_at : (now : ℕ) (p : Prompter) (o : Option ℕ) → SameLink p (expire_at now o p)
unfolding expire_at
SameLink-expire_at now p none = (refl, refl)
SameLink-expire_at now p (some d) = SameLink-if p (leb d now) _ p (refl, refl) (refl, refl)

SameLink-request : (p : Prompter) (id : Bytes) → SameLink p (request id p)
unfolding request
SameLink-request p id =
    SameLink-if p (ltb (length p.requests) max_requests) _ p (refl, refl) (refl, refl)

gen-disconnected : (gen : ℕ) (p : Prompter) → (disconnected gen p).gen ≡ p.gen
unfolding disconnected
gen-disconnected gen p = elim (Bool-cases (p.gen == gen)) [ inl b ↦ rw b refl | inr b ↦ rw b refl ]

-- A step that leaves the sender alone.
abbrev pub Other : Op → Type 0
Other connect = ⊥
Other (disconnect gen) = ⊥
Other _ = Unit

SameLink-apply : (ttl : ℕ) (p : Prompter) (op : Op) → Other op → SameLink p (apply ttl p op)
unfolding apply take_request expire
SameLink-apply ttl p connect h = absurd h
SameLink-apply ttl p (disconnect gen) h = absurd h
SameLink-apply ttl p (ask id) h = SameLink-request p id
SameLink-apply ttl p (Op.take now) h = SameLink-take_from ttl now p p.requests
SameLink-apply ttl p (line l accepts) h = SameLink-type_line p l accepts
SameLink-apply ttl p close h = SameLink-close_stdin p
SameLink-apply ttl p (tick now) h = SameLink-expire_at now p p.deadline

-- A step is a connection, the end of one, or neither.
data Kind : Op → Type 0 where
  made : Kind connect
  ended : (gen : ℕ) → Kind (disconnect gen)
  other : {op : Op} → Other op → Kind op

kind : (op : Op) → Kind op
kind connect = made
kind (disconnect gen) = ended gen
kind (ask id) = other tt
kind (Op.take now) = other tt
kind (line l accepts) = other tt
kind close = other tt
kind (tick now) = other tt

connects-Other : (op : Op) (ops : List Op) → Other op → connects (op ∷ ops) ≡ connects ops
unfolding connects
connects-Other connect ops h = absurd h
connects-Other (disconnect gen) ops h = absurd h
connects-Other (ask id) ops h = refl
connects-Other (Op.take now) ops h = refl
connects-Other (line l accepts) ops h = refl
connects-Other close ops h = refl
connects-Other (tick now) ops h = refl

-- The generation counts the connections of a script.
abbrev Counted : ℕ → List Op → Prompter → Type 0
Counted ttl ops p = p.gen + connects ops < 2 ^ 64 → (run ttl p ops).gen ≡ p.gen + connects ops

Counted-apply :
    (ttl : ℕ) (p : Prompter) (op : Op) (ops : List Op)
    → Kind op
    → Counted ttl ops (apply ttl p op)
    → Counted ttl (op ∷ ops) p
unfolding run apply connects connected disconnected
Counted-apply ttl p connect ops made ih h =
    let counted : (p.gen + 1) % 2 ^ 64 ≡ p.gen + 1 = omega (arith, h) in
    omega (arith, ih (omega (arith, h, counted)), counted)
Counted-apply ttl p (disconnect gen) ops (ended _) ih h =
    let same = gen-disconnected gen p in omega (arith, ih (omega (arith, h, same)), same)
Counted-apply ttl p op ops (other o) ih h =
    let (same, _) = SameLink-apply ttl p op o in
    let fewer = connects-Other op ops o in
    omega (arith, ih (omega (arith, h, same, fewer)), same, fewer)

run-Counted : (ttl : ℕ) (p : Prompter) (ops : List Op) → Counted ttl ops p
unfolding run connects
run-Counted ttl p [] = λ h. omega arith
run-Counted ttl p (op ∷ ops) =
    Counted-apply ttl p op ops (kind op) (run-Counted ttl (apply ttl p op) ops)

-- The sender of the newest generation is installed.
abbrev Linked : ℕ → Prompter → Type 0
Linked n p = (p.gen ≡ suc n) × (p.submit ≡ some (suc n))

Linked-apply :
    (ttl n : ℕ) (p : Prompter) (op : Op)
    → OnlyOlderEnd n (op ∷ [])
    → Kind op
    → Linked n p
    → Linked n (apply ttl p op)
unfolding apply OnlyOlderEnd disconnected
Linked-apply ttl n p connect h made l = absurd h
Linked-apply ttl n p (disconnect gen) h (ended _) (same, linked) =
    let newer : (p.gen == gen) ≡ false = ground (arith, h.0, same) in rw newer (same, linked)
Linked-apply ttl n p op h (other o) (same, linked) =
    let (g, s) = SameLink-apply ttl p op o in (g ∙ same, s ∙ linked)

OnlyOlderEnd-split :
    (n : ℕ) (op : Op) (ops : List Op)
    → OnlyOlderEnd n (op ∷ ops)
    → OnlyOlderEnd n (op ∷ []) × OnlyOlderEnd n ops
unfolding OnlyOlderEnd
OnlyOlderEnd-split n connect ops h = absurd h
OnlyOlderEnd-split n (disconnect gen) ops h = ((h.0, tt), h.1)
OnlyOlderEnd-split n (ask id) ops h = (tt, h)
OnlyOlderEnd-split n (Op.take now) ops h = (tt, h)
OnlyOlderEnd-split n (line l accepts) ops h = (tt, h)
OnlyOlderEnd-split n close ops h = (tt, h)
OnlyOlderEnd-split n (tick now) ops h = (tt, h)

run-Linked :
    (ttl n : ℕ) (p : Prompter) (ops : List Op)
    → OnlyOlderEnd n ops
    → Linked n p
    → Linked n (run ttl p ops)
unfolding run
run-Linked ttl n p [] h l = l
run-Linked ttl n p (op ∷ ops) h l =
    let (first, rest) = OnlyOlderEnd-split n op ops h in
    run-Linked ttl n (apply ttl p op) ops rest (Linked-apply ttl n p op first (kind op) l)

-- Whatever happened before and happens after, a connection that is made keeps its sender installed
-- as long as no newer one is made and only earlier ones end, late as that may be, if fewer than
-- 2^64 connections are made.
pub run_keeps_sender :
    (ttl : ℕ) (ops later : List Op)
    → suc (connects ops) < 2 ^ 64
    → OnlyOlderEnd (connects ops) later
    → (run ttl new (ops ++ connect ∷ later)).submit ≡ some (suc (connects ops))
unfolding run apply connected
run_keeps_sender ttl ops later h older =
    let p = run ttl new ops in
    let raw = run-Counted ttl new ops (omega (arith, h)) in
    let counted : p.gen ≡ connects ops = omega (arith, raw) in
    let next : (p.gen + 1) % 2 ^ 64 ≡ suc (connects ops) = omega (arith, h, counted) in
    rw run-append (run-Linked ttl (connects ops) (connected p).1 later older (next, ap some next)).1
