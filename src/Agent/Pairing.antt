-- ===== src/Agent/Pairing.antt =====
-- cmd/scomp/pairing_prompt.go: the prompt for a pairing PIN. A sender is known by the generation
-- it was installed with, and a line is the list of its runes.
pub mod Once
pub mod Ends
pub mod Sender
mod Tests
use scomp_agent.Common.{
  ℕ, ◌+◌, ◌-◌, ◌%◌, ◌^◌, Bool, true, false, ◌||◌, Option, none, some, List, [], ◌∷◌, ◌++◌, ltb, leb,
  ◌==◌, if◌then◌else◌, Bytes, length,
}
use scomp_agent.Strings.{is_nil, trim_space}

-- What is printed.
pub data Notice : Type 0 where
  asked replaced aborted_empty submitted not_submitted expired aborted_closed not_terminal : Notice

-- `p.requests`, `p.submit` and `p.gen`, the local variables of `run`, the messages that senders
-- were called with (the sender, `PairID` and `PIN`), and what was printed. The deadline is the time
-- at which `expired` delivers.
pub record Prompter : Type 0 where
  pub requests : List Bytes
  pub submit : Option ℕ
  pub gen : ℕ
  pub pair_id : Bytes
  pub deadline : Option ℕ
  pub no_stdin : Bool
  pub sent : List (ℕ × Bytes × Bytes)
  pub out : List Notice

abbrev pub new : Prompter
new = record {
  requests = [];
  submit = none;
  gen = 0;
  pair_id = [];
  deadline = none;
  no_stdin = false;
  sent = [];
  out = [];
}

-- The capacity of `p.requests`.
abbrev pub max_requests : ℕ
max_requests = 4

abbrev pub print : Notice → Prompter → Prompter
print n p = record p { out = p.out ++ n ∷ [] }

-- `connected`; the generation is what the function that it returns captures.
unfoldable pub connected : Prompter → ℕ × Prompter
connected p = let gen : ℕ = (p.gen + 1) % 2 ^ 64 in (gen, record p { gen = gen; submit = some gen })

-- The function that `connected` returns.
unfoldable pub disconnected : ℕ → Prompter → Prompter
disconnected gen p = if p.gen == gen then record p { submit = none } else p

unfoldable pub request : Bytes → Prompter → Prompter
request id p =
    if ltb (length p.requests) max_requests
    then record p { requests = p.requests ++ id ∷ [] }
    else p

-- `stop` of `run`.
abbrev pub stop : Prompter → Prompter
stop p = record p { pair_id = []; deadline = none }

-- `p.send`; `accepts` is what the sender answers if it is called.
pub send_by : Option ℕ → Bool → Bytes → Bytes → Prompter → Bool × Prompter
send_by none accepts id pin p = (false, p)
send_by (some gen) accepts id pin p = (accepts, record p { sent = p.sent ++ (gen, id, pin) ∷ [] })

unfoldable pub send : Bool → Bytes → Bytes → Prompter → Bool × Prompter
unfolding send_by
send accepts id pin p = send_by p.submit accepts id pin p

-- `run` receives a request from `p.requests` at the time `now`.
pub prompt_for : ℕ → ℕ → Bytes → Prompter → Prompter
prompt_for ttl now id p =
    if p.no_stdin
    then print not_terminal p
    else let p = if is_nil p.pair_id then p else print replaced p in
      print asked (record (stop p) { pair_id = id; deadline = some (now + ttl) })

pub take_from : ℕ → ℕ → List Bytes → Prompter → Prompter
take_from ttl now [] p = p
take_from ttl now (id ∷ rest) p = prompt_for ttl now id (record p { requests = rest })

unfoldable pub take_request : ℕ → ℕ → Prompter → Prompter
unfolding take_from prompt_for
take_request ttl now p = take_from ttl now p.requests p

-- `run` receives a line.
pub report : Bool × Prompter → Prompter
report (true, p) = print submitted p
report (false, p) = print not_submitted p

unfoldable pub type_line : Bytes → Bool → Prompter → Prompter
unfolding send trim_space report
type_line line accepts p =
    if p.no_stdin || is_nil p.pair_id
    then p
    else let pin = trim_space line in
      if is_nil pin
      then print aborted_empty (stop p)
      else report (send accepts p.pair_id pin (stop p))

-- `run` finds `lines` closed.
unfoldable pub close_stdin : Prompter → Prompter
close_stdin p =
    if p.no_stdin
    then p
    else let p = record p { no_stdin = true } in
      stop (if is_nil p.pair_id then p else print aborted_closed p)

-- The timer delivers at the time `now`, if it is due.
pub expire_at : ℕ → Option ℕ → Prompter → Prompter
expire_at now none p = p
expire_at now (some d) p = if leb d now then print expired (stop p) else p

unfoldable pub expire : ℕ → Prompter → Prompter
unfolding expire_at
expire now p = expire_at now p.deadline p

-- The steps of the prompt's loop and of its callers, in any order.
pub data Op : Type 0 where
  connect : Op
  disconnect : ℕ → Op
  ask : Bytes → Op
  take : ℕ → Op
  line : Bytes → Bool → Op
  close : Op
  tick : ℕ → Op

unfoldable pub apply : ℕ → Prompter → Op → Prompter
unfolding connected disconnected request take_request type_line close_stdin expire
apply ttl p connect = (connected p).1
apply ttl p (disconnect gen) = disconnected gen p
apply ttl p (ask id) = request id p
apply ttl p (take now) = take_request ttl now p
apply ttl p (line l accepts) = type_line l accepts p
apply ttl p close = close_stdin p
apply ttl p (tick now) = expire now p

unfoldable pub run : ℕ → Prompter → List Op → Prompter
run ttl p [] = p
run ttl p (op ∷ ops) = run ttl (apply ttl p op) ops
