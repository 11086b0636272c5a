-- ===== src/Agent/Pairing/Ends.antt =====
-- A prompt always ends, and the current connection's sender stays.
use scomp_agent.Common.{
  ℕ, ◌+◌, ◌≤◌, ◌≡◌, refl, sym, ◌∙◌, inl, inr, Bool, true, false, ◌||◌, Option, none, some, List, [],
  ◌∷◌, ◌++◌, arith, ltb, leb, ◌==◌, if◌then◌else◌, leb→lt, Bool-cases, Bytes, length,
}
use scomp_agent.Agent.Pairing.{
  Prompter, aborted_empty, expired, max_requests, print, connected, disconnected, request, stop,
  send_by, send, trim_space, prompt_for, take_from, take_request, report, type_line, close_stdin,
  expire_at, expire, Op, connect, disconnect, ask, line, close, tick, apply, new, run,
}
use scomp_agent.Agent.Pairing.Once.{right_false}
use scomp_agent.Strings.{is_nil, trim_space}

-- Requests are taken no later than `limit`.
unfoldable pub TakenBy : ℕ → List Op → Type 0
TakenBy limit [] = Unit
TakenBy limit (Op.take now ∷ ops) = (now ≤ limit) × TakenBy limit ops
TakenBy limit (_ ∷ ops) = TakenBy limit ops

-- No request is taken.
unfoldable pub NoneTaken : List Op → Type 0
NoneTaken [] = Unit
NoneTaken (Op.take now ∷ ops) = ⊥
NoneTaken (_ ∷ ops) = NoneTaken ops

-- A prompt that shows has a timer, which is due by `limit`.
abbrev DueBy : ℕ → Option ℕ → Type 0
DueBy limit none = ⊥
DueBy limit (some d) = d ≤ limit

abbrev Timed : ℕ → Prompter → Type 0
Timed limit p = is_nil p.pair_id ≡ false → DueBy limit p.deadline

Timed-if :
    (limit : ℕ) (b : Bool) (p q : Prompter)
    → Timed limit p
    → Timed limit q
    → Timed limit (if b then p else q)
Timed-if limit true p q h k = h
Timed-if limit false p q h k = k

Timed-stop : (limit : ℕ) (p : Prompter) → Timed limit (stop p)
Timed-stop limit p h = cc

Timed-take_from :
    (limit ttl now : ℕ) (requests : List Bytes) (p : Prompter)
    → now ≤ limit
    → Timed (limit + ttl) p
    → Timed (limit + ttl) (take_from ttl now requests p)
unfolding take_from prompt_for
Timed-take_from limit ttl now [] p h t = t
Timed-take_from limit ttl now (id ∷ rest) p h t = elim (Bool-cases p.no_stdin) [
  | inl b ↦ rw b t
  | inr b ↦ rw b λ shows. omega (arith, h)
]

Timed-send_by :
    (limit : ℕ) (o : Option ℕ) (accepts : Bool) (id pin : Bytes) (p : Prompter)
    → Timed limit (report (send_by o accepts id pin (stop p)))
unfolding report send_by
Timed-send_by limit none accepts id pin p h = cc
Timed-send_by limit (some gen) true id pin p h = cc
Timed-send_by limit (some gen) false id pin p h = cc

Timed-expire_at :
    (limit now : ℕ) (o : Option ℕ) (p : Prompter) → Timed limit p → Timed limit (expire_at now o p)
unfolding expire_at
Timed-expire_at limit now none p t = t
Timed-expire_at limit now (some d) p t =
    Timed-if limit (leb d now) (print expired (stop p)) p (Timed-stop limit p) t

Timed-close_stdin : (limit : ℕ) (p : Prompter) → Timed limit p → Timed limit (close_stdin p)
unfolding close_stdin
Timed-close_stdin limit p t = Timed-if limit p.no_stdin p _ t (λ h. cc)

Timed-type_line :
    (limit : ℕ) (l : Bytes) (accepts : Bool) (p : Prompter)
    → Timed limit p
    → Timed limit (type_line l accepts p)
unfolding type_line send
Timed-type_line limit l accepts p t = Timed-if limit (p.no_stdin || is_nil p.pair_id) p _ t (
    Timed-if limit (is_nil (trim_space l)) (print aborted_empty (stop p)) _ (Timed-stop limit p)
      (Timed-send_by limit p.submit accepts p.pair_id (trim_space l) p))

Timed-apply :
    (limit ttl : ℕ) (p : Prompter) (op : Op)
    → TakenBy limit (op ∷ [])
    → Timed (limit + ttl) p
    → Timed (limit + ttl) (apply ttl p op)
unfolding apply TakenBy connected disconnected request take_request expire
Timed-apply limit ttl p connect h t = t
Timed-apply limit ttl p (disconnect gen) h t = Timed-if (limit + ttl) (p.gen == gen) _ p t t
Timed-apply limit ttl p (ask id) h t =
    Timed-if (limit + ttl) (ltb (length p.requests) max_requests) _ p t t
Timed-apply limit ttl p (Op.take now) h t = Timed-take_from limit ttl now p.requests p h.0 t
Timed-apply limit ttl p (line l accepts) h t = Timed-type_line (limit + ttl) l accepts p t
Timed-apply limit ttl p close h t = Timed-close_stdin (limit + ttl) p t
Timed-apply limit ttl p (tick now) h t = Timed-expire_at (limit + ttl) now p.deadline p t

TakenBy-split :
    (limit : ℕ) (op : Op) (ops : List Op)
    → TakenBy limit (op ∷ ops)
    → TakenBy limit (op ∷ []) × TakenBy limit ops
unfolding TakenBy
TakenBy-split limit connect ops h = (tt, h)
TakenBy-split limit (disconnect gen) ops h = (tt, h)
TakenBy-split limit (ask id) ops h = (tt, h)
TakenBy-split limit (Op.take now) ops h = ((h.0, tt), h.1)
TakenBy-split limit (line l accepts) ops h = (tt, h)
TakenBy-split limit close ops h = (tt, h)
TakenBy-split limit (tick now) ops h = (tt, h)

run-Timed :
    (limit ttl : ℕ) (p : Prompter) (ops : List Op)
    → TakenBy limit ops
    → Timed (limit + ttl) p
    → Timed (limit + ttl) (run ttl p ops)
unfolding run
run-Timed limit ttl p [] h t = t
run-Timed limit ttl p (op ∷ ops) h t =
    let (first, rest) = TakenBy-split limit op ops h in
    run-Timed limit ttl (apply ttl p op) ops rest (Timed-apply limit ttl p op first t)

-- No prompt shows, and nothing was sent since `q`.
abbrev Quiet : Prompter → Prompter → Type 0
Quiet q p = (is_nil p.pair_id ≡ true) × (p.sent ≡ q.sent)

Quiet-if :
    (q : Prompter) (b : Bool) (x y : Prompter)
    → (b ≡ true → Quiet q x)
    → (b ≡ false → Quiet q y)
    → Quiet q (if b then x else y)
Quiet-if q true x y h k = h refl
Quiet-if q false x y h k = k refl

Quiet-expire_at :
    (q p : Prompter) (now : ℕ) (o : Option ℕ) → Quiet q p → Quiet q (expire_at now o p)
unfolding expire_at
Quiet-expire_at q p now none k = k
Quiet-expire_at q p now (some d) (idle, same) =
    Quiet-if q (leb d now) (print expired (stop p)) p (λ b. (refl, same)) (λ b. (idle, same))

Quiet-due :
    (limit now : ℕ) (p : Prompter) (o : Option ℕ)
    → DueBy limit o
    → limit ≤ now
    → Quiet p (expire_at now o p)
unfolding expire_at
Quiet-due limit now p none h le = absurd h
Quiet-due limit now p (some d) h le =
    Quiet-if p (leb d now) (print expired (stop p)) p (λ b. (refl, refl))
      (λ b. absurd (omega (arith, h, le, leb→lt d now b)))

expire-Quiet : (limit now : ℕ) (p : Prompter) → Timed limit p → limit ≤ now → Quiet p (expire now p)
unfolding expire
expire-Quiet limit now p t le = elim (Bool-cases (is_nil p.pair_id)) [
  | inl idle ↦ Quiet-expire_at p p now p.deadline (idle, refl)
  | inr shows ↦ Quiet-due limit now p p.deadline (t shows) le
]

Quiet-apply :
    (ttl : ℕ) (q p : Prompter) (op : Op)
    → NoneTaken (op ∷ [])
    → Quiet q p
    → Quiet q (apply ttl p op)
unfolding apply NoneTaken connected disconnected request type_line close_stdin expire expire_at
Quiet-apply ttl q p connect h (idle, same) = (idle, same)
Quiet-apply ttl q p (disconnect gen) h (idle, same) =
    Quiet-if q (p.gen == gen) _ p (λ b. (idle, same)) (λ b. (idle, same))
Quiet-apply ttl q p (ask id) h (idle, same) =
    Quiet-if q (ltb (length p.requests) max_requests) _ p (λ b. (idle, same)) (λ b. (idle, same))
Quiet-apply ttl q p (Op.take now) h k = absurd h
Quiet-apply ttl q p (line l accepts) h (idle, same) =
    Quiet-if q (p.no_stdin || is_nil p.pair_id) p _ (λ b. (idle, same))
      (λ b. let e : true ≡ false = sym idle ∙ right_false p.no_stdin b in cc)
Quiet-apply ttl q p close h (idle, same) =
    Quiet-if q p.no_stdin p _ (λ b. (idle, same)) (λ b. rw idle (refl, same))
Quiet-apply ttl q p (tick now) h k = Quiet-expire_at q p now p.deadline k

NoneTaken-split :
    (op : Op) (ops : List Op) → NoneTaken (op ∷ ops) → NoneTaken (op ∷ []) × NoneTaken ops
unfolding NoneTaken
NoneTaken-split connect ops h = (tt, h)
NoneTaken-split (disconnect gen) ops h = (tt, h)
NoneTaken-split (ask id) ops h = (tt, h)
NoneTaken-split (Op.take now) ops h = absurd h
NoneTaken-split (line l accepts) ops h = (tt, h)
NoneTaken-split close ops h = (tt, h)
NoneTaken-split (tick now) ops h = (tt, h)

run-Quiet :
    (ttl : ℕ) (q p : Prompter) (ops : List Op) → NoneTaken ops → Quiet q p → Quiet q (run ttl p ops)
unfolding run
run-Quiet ttl q p [] h k = k
run-Quiet ttl q p (op ∷ ops) h k =
    let (first, rest) = NoneTaken-split op ops h in
    run-Quiet ttl q (apply ttl p op) ops rest (Quiet-apply ttl q p op first k)

pub run-append :
    (ttl : ℕ) (p : Prompter) (ops more : List Op)
    → run ttl p (ops ++ more) ≡ run ttl (run ttl p ops) more
unfolding run
run-append ttl p [] more = refl
run-append ttl p (op ∷ ops) more = run-append ttl (apply ttl p op) ops more

-- Every prompt ends, even when nothing is typed: if requests were taken no later than `limit`, then
-- the timer's event at any time from `limit + ttl` on leaves no prompt, and, until a request is
-- taken, no prompt appears again and no line that is typed is submitted.
pub run_ends :
    (ttl limit now : ℕ) (ops later : List Op)
    → TakenBy limit ops
    → limit + ttl ≤ now
    → NoneTaken later
    → (is_nil (run ttl new (ops ++ tick now ∷ later)).pair_id ≡ true)
      × ((run ttl new (ops ++ tick now ∷ later)).sent ≡ (run ttl new ops).sent)
unfolding run apply
run_ends ttl limit now ops later taken le none_taken = rw run-append (
    run-Quiet ttl (run ttl new ops) (expire now (run ttl new ops)) later none_taken (
      expire-Quiet (limit + ttl) now (run ttl new ops) (run-Timed limit ttl new ops taken (λ h. cc))
        le))
