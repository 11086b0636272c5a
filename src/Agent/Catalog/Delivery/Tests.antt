-- ===== src/Agent/Catalog/Delivery/Tests.antt =====
-- The view of a main loop that starts on a catalog, and a scan.
use scomp_agent.Common.{
  equal, lookup, erase, ℕ, ◌+◌, ◌≤◌, refl, true, false, none, [], ◌∷◌, arith, Bytes, length, Map,
  text,
}
use scomp_agent.Protocol.{mode_full, ServerMsg}
use scomp_agent.Agent.Handler.{LazySession, State, Outside, handle, finish_session}
use scomp_agent.Agent.Handler.Start.{announce_all}
use scomp_agent.Agent.Catalog.{
  keys_of, scan, discover, present, discover_all, prune, Scanned, Change,
}
use scomp_agent.Agent.Catalog.Delivery.{offer_all, on_changes, snapshot_and_subscribe, capacity}
use scomp_agent.Agent.Catalog.Delivery.Entries.{IsCatalog}
use scomp_agent.Agent.Catalog.Delivery.Follows.{Agrees, IsFresh}
use scomp_agent.Agent.Catalog.Delivery.Runs.{
  Both, IsInStep, Steps-IsInStep, scanned, handled, ended, step, done,
}
use scomp_agent.Agent.Catalog.Delivery.Starts.{announce_all-snapshot}

-- `work` is known, `old` has gone, and `web` is new.
abbrev known : Map LazySession
known =
    (
      text "tmux:work",
      record { id = text "1"; cmd = text "tmux:work"; created = 3; mode = mode_full },
    )
    ∷ (
      text "tmux:old",
      record { id = text "2"; cmd = text "tmux:old"; created = 3; mode = mode_full },
    )
    ∷ []

abbrev surroundings : Outside
surroundings = record {
  get = λ effects id. none;
  activates = λ effects id. true;
  new_forwarder = λ effects. 0;
  conn_done = λ effects. false;
  pairs = true;
}

abbrev nothing : State
nothing = record { modes = []; lazy_map = []; available = []; forwarders = []; effects = [] }

abbrev started : State
started = announce_all surroundings (snapshot_and_subscribe 0 known []).0 nothing

abbrev ids : ℕ → Bytes
ids n = n ∷ 7 ∷ []

abbrev after : Scanned
after = scan ids 9 mode_full (λ id. true) known (text "work" ∷ []) (text "web" ∷ [])

known-IsCatalog : IsCatalog known
unfolding equal lookup
known-IsCatalog = (refl, refl, refl, (refl, tt), (refl, refl, refl, tt, tt))

ids-IsFresh : IsFresh ids 9 mode_full 0 (known, []) (keys_of (text "work" ∷ []) (text "web" ∷ []))
unfolding IsFresh equal lookup keys_of discover
ids-IsFresh = (refl, (refl, (refl, tt)), (refl, (refl, (refl, tt)), tt))

starts : Agrees (on_changes [] started).available known
unfolding on_changes
starts = announce_all-snapshot surroundings 0 known [] nothing known-IsCatalog refl

room : length {A = Change} [] + length after.changes ≤ capacity
unfolding scan keys_of discover_all discover prune present lookup equal erase
room = ground arith

-- The scan, a message and the end of a session, before any change is taken.
abbrev first : Both
first = record { entries = known; waiting = []; loop = started }

abbrev second : Both
second = record { entries = after.entries; waiting = offer_all after.changes []; loop = started }

abbrev attach : ServerMsg
attach = record {
  kind = text "client_attach";
  session_id = text "1";
  client_id = text "c";
  payload = [];
  cols = 80;
  rows = 24;
  pair_id = [];
  nonce = [];
}

abbrev third : Both
third = record second { loop = handle surroundings attach second.loop }

abbrev last : Both
last = record third { loop = finish_session surroundings third.loop (text "1") 0 }

Steps-IsInStep_example : IsInStep surroundings mode_full last
Steps-IsInStep_example =
    Steps-IsInStep surroundings mode_full first last
      (step first second last
        (scanned first ids 9 (λ id. true) (text "work" ∷ []) (text "web" ∷ []) ids-IsFresh room)
        (step second third last (handled second attach)
          (step third last last (ended third (text "1") 0) (done last))))
      (known-IsCatalog, starts)
