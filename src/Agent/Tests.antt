-- ===== src/Agent/Tests.antt =====
-- The policy and the attach replay at concrete inputs.
use scomp_agent.Common.{
  equal, lookup, ℕ, ◌≡◌, ◌↔◌, ◌⊎◌, Bool, true, false, none, some, List, [], ◌∷◌, ◌++◌, arith, ltb,
  if◌then◌else◌, length, replicate, Map, text,
}
use scomp_agent.Protocol.{ServerMsg, mode_full, mode_readonly, mode_approved, AgentMsg}
use scomp_agent.Agent.Handler.{LazySession, Outside, State, handle}
use scomp_agent.Agent.Handler.Grows.{Grows}
use scomp_agent.Agent.Handler.Guard.{IsAllowed, handle-Grows}
use scomp_agent.Agent.Catalog.{keys_of, present, scan}
use scomp_agent.Agent.Catalog.Scan.{scan-lookup}
use scomp_agent.Agent.Policy.{
  OneOf, approved_sequences, input_allowed, parse_session_mode, input_allowed_iff,
  parse_session_mode_iff,
}
use scomp_agent.Agent.Snapshot.{send_snapshot}
use scomp_agent.Agent.Snapshot.Batch.{batch, send_all, send_snapshot-batch}
use scomp_agent.Agent.Snapshot.Replay.{read_batch, read_batch-batch}

input_allowed_iff_example : (input_allowed mode_approved (text "y\r") ≡ true) ↔ (
    (mode_approved ≡ mode_full)
    ⊎ ((mode_approved ≡ mode_approved) × OneOf approved_sequences (text "y\r")))
input_allowed_iff_example = input_allowed_iff mode_approved (text "y\r")

parse_session_mode_iff_example : (parse_session_mode (text "full") ≡ some mode_full) ↔ (
    (mode_full ≡ text "full")
    × OneOf (mode_full ∷ mode_readonly ∷ mode_approved ∷ []) (text "full"))
parse_session_mode_iff_example = parse_session_mode_iff (text "full") mode_full

-- A queue of at most `n` messages.
abbrev bounded : ℕ → AgentMsg → List AgentMsg → Bool × List AgentMsg
bounded n m queue = if ltb (length queue) n then (true, queue ++ m ∷ []) else (false, queue)

send_snapshot-batch_example :
    send_snapshot (bounded 2) (text "s") (text "c") (1 ∷ 2 ∷ 3 ∷ []) []
    ≡ (send_all (bounded 2) (batch (text "s") (text "c") (1 ∷ 2 ∷ 3 ∷ [])) []).1
send_snapshot-batch_example =
    send_snapshot-batch (bounded 2) (text "s") (text "c") (1 ∷ 2 ∷ 3 ∷ []) []

read_batch-batch_example :
    read_batch (text "s") (text "c") (batch (text "s") (text "c") (1 ∷ 2 ∷ 3 ∷ []))
    ≡ some (1 ∷ 2 ∷ 3 ∷ [])
read_batch-batch_example =
    read_batch-batch (text "s") (text "c") (1 ∷ 2 ∷ 3 ∷ [])
      (omega arith, (omega arith, (omega arith, tt))) (omega arith)

-- Terminal 1 runs as session `s`, which takes the approved input only.
abbrev surroundings : Outside
surroundings = record {
  get = λ es id. if equal id (text "s") then some 1 else none;
  activates = λ es id. true;
  new_forwarder = λ es. 9;
  conn_done = λ es. false;
  pairs = false;
}

abbrev serving : State
serving = record {
  modes = (text "s", mode_approved) ∷ [];
  lazy_map = [];
  available = [];
  forwarders = [];
  effects = [];
}

-- `y` and a return, in base64.
abbrev yes_msg : ServerMsg
yes_msg = record {
  kind = text "input";
  session_id = text "s";
  client_id = [];
  payload = text "eQ0=";
  cols = 0;
  rows = 0;
  pair_id = [];
  nonce = [];
}

handle-Grows_example :
    Grows (IsAllowed surroundings serving yes_msg) [] (handle surroundings yes_msg serving).effects
handle-Grows_example = handle-Grows surroundings yes_msg serving

-- `work` is known, `old` has gone, and `web` is new.
abbrev known : Map LazySession
known =
    (
      text "tmux:work",
      record { id = text "1"; cmd = text "tmux:work"; created = 3; mode = mode_full },
    )
    ∷ (
      text "tmux:old",
      record { id = text "2"; cmd = text "tmux:old"; created = 3; mode = mode_full },
    )
    ∷ []

scan-lookup_example :
    let after =
      lookup
        (text "tmux:work")
        (scan
          (λ n. replicate n 7)
          9
          mode_full
          (λ id. true)
          known
          (text "work" ∷ [])
          (text "web" ∷ [])).entries in
    ((present (keys_of (text "work" ∷ []) (text "web" ∷ [])) (text "tmux:work") ≡ false)
      × (after ≡ none))
    ⊎ ((present (keys_of (text "work" ∷ []) (text "web" ∷ [])) (text "tmux:work") ≡ true)
        × ((e : LazySession) × (after ≡ some e))
        × ((lookup (text "tmux:work") known ≡ none) ⊎ (after ≡ lookup (text "tmux:work") known)))
scan-lookup_example =
    scan-lookup (λ n. replicate n 7) 9 mode_full (λ id. true) known (text "work" ∷ [])
      (text "web" ∷ []) (text "tmux:work")
