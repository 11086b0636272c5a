-- ===== src/Agent/Catalog.antt =====
-- cmd/scomp/session_catalog.go: `scan`, which brings the catalog in line with the multiplexers'
-- listings. The listings, the identifiers that `newSessionID` draws and the time are inputs; the
-- iteration over the map goes through the list.
pub mod Scan
pub mod Delivery
use scomp_agent.Common.{
  equal, lookup, ℕ, ◌+◌, ◌-◌, Bool, true, false, not, Option, none, some, List, [], ◌∷◌, ◌++◌, map,
  if◌then◌else◌, Bytes, take, drop, Map, set, text,
}
use scomp_agent.Protocol.{SessionMode}
use scomp_agent.Agent.Handler.{LazySession}

-- `sessionChange`
pub data Change : Type 0 where
  added : LazySession → Change
  removed : Bytes → Change

-- The names in the two listings, as keys.
unfoldable pub keys_of : List Bytes → List Bytes → List Bytes
keys_of tmux screen =
    map (λ name. text "tmux:" ++ name) tmux ++ map (λ name. text "screen:" ++ name) screen

-- `present[key]`
unfoldable pub present : List Bytes → Bytes → Bool
present [] key = false
present (k ∷ keys) key = if equal k key then true else present keys key

-- The entry that a listing's new name gets; `drawn` counts the identifiers drawn before.
abbrev pub new_entry : (ℕ → Bytes) → ℕ → SessionMode → ℕ → Bytes → LazySession
new_entry new_id now mode drawn key = record {
  id = new_id drawn;
  cmd = key;
  created = now;
  mode = mode;
}

module _ (new_id : ℕ → Bytes) (now : ℕ) (mode : SessionMode) where
  -- One round of the two loops over the listings.
  unfoldable pub discover :
      ℕ → Map LazySession × List Change → Bytes → Option LazySession → Map LazySession × List Change
  discover drawn c key (some e) = c
  discover drawn (entries, changes) key none =
      let e = new_entry new_id now mode drawn key in (set key e entries, changes ++ added e ∷ [])

  unfoldable pub discover_all :
      ℕ → Map LazySession × List Change → List Bytes → Map LazySession × List Change
  unfolding discover
  discover_all drawn c [] = c
  discover_all drawn c (key ∷ keys) =
      discover_all (drawn + 1) (discover drawn c key (lookup key c.0)) keys

-- The loop over the entries: those that stay, and those that go.
unfoldable pub prune : List Bytes → Map LazySession → Map LazySession × List LazySession
prune keys [] = ([], [])
prune keys ((k, e) ∷ entries) =
    let (kept, gone) = prune keys entries in
    if present keys k then ((k, e) ∷ kept, gone) else (kept, e ∷ gone)

-- What the last loop does to the registry and to tmux.
pub data Cleanup : Type 0 where
  remove_session : Bytes → Cleanup
  kill_linked : Bytes → Cleanup

-- The name behind the prefix `tmux:`.
unfoldable pub tmux_name : Bytes → Option Bytes
tmux_name cmd = if equal (take 5 cmd) (text "tmux:") then some (drop 5 cmd) else none

unfoldable pub cleanups : (Bytes → Bool) → List LazySession → List Cleanup
unfolding tmux_name
cleanups active [] = []
cleanups active (e ∷ gone) =
    let rest = cleanups active gone in
    if not (active e.id)
    then rest
    else remove_session e.id
      ∷ elim (tmux_name e.cmd) [ none ↦ rest | some name ↦ kill_linked name ∷ rest ]

pub record Scanned : Type 0 where
  pub entries : Map LazySession
  pub changes : List Change
  pub cleaned : List Cleanup

unfoldable pub scan :
    (ℕ → Bytes)
    → ℕ
    → SessionMode
    → (Bytes → Bool)
    → Map LazySession
    → List Bytes
    → List Bytes
    → Scanned
unfolding keys_of discover_all prune cleanups
scan new_id now mode active entries tmux screen =
    let keys = keys_of tmux screen in
    let (found, changes) = discover_all new_id now mode 0 (entries, []) keys in
    let (kept, gone) = prune keys found in
    record {
      entries = kept;
      changes = changes ++ map (λ e. removed e.id) gone;
      cleaned = cleanups active gone;
    }

-- A catalog starts with a scan that tells nobody of its changes.
pub new_session_catalog :
    (ℕ → Bytes) → ℕ → SessionMode → (Bytes → Bool) → List Bytes → List Bytes → Map LazySession
unfolding scan
new_session_catalog new_id now mode active tmux screen =
    (scan new_id now mode active [] tmux screen).entries
