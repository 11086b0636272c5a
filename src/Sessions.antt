-- ===== src/Sessions.antt =====
-- internal/sessions: the registry of running sessions. A terminal is known by a number, the
-- identity of its pointer. Every critical section under `r.mu` is one function; `ended` tells which
-- terminals' `Done` channels are closed, and a time is a number.
pub mod Lookup
pub mod Create
mod Tests
pub mod Watch
pub mod Attach
use scomp_agent.Common.{
  equal, lookup, erase, ℕ, ◌+◌, ◌-◌, ◌/◌, Bool, not, ◌&&◌, Option, none, some, List, [], ◌∷◌, ◌++◌,
  map, ◌==◌, if◌then◌else◌, tests, Bytes, length, Map, set, text,
}
use scomp_agent.Protocol.{SessionMode}

pub record Info : Type 0 where
  pub id : Bytes
  pub cmd : Bytes
  pub created : ℕ
  pub mode : SessionMode

pub record Entry : Type 0 where
  pub info : Info
  pub session : ℕ
  pub source : Bytes

pub record Registry : Type 0 where
  pub entries : Map Entry
  pub source_to_id : Map Bytes

abbrev pub new : Registry
new = record { entries = []; source_to_id = [] }

-- The entry that `Add` and the creating methods put under `id`.
abbrev pub new_entry : Bytes → Bytes → ℕ → ℕ → Bytes → Entry
new_entry id cmd now sess src = record {
  info = record { id = id; cmd = cmd; created = now; mode = [] };
  session = sess;
  source = src;
}

-- The two deletions that `forgetWhenDone` and `Remove` share.
unfoldable pub delete_entry : Registry → Bytes → Entry → Registry
delete_entry r id e = record {
  entries = erase id r.entries;
  source_to_id =
      if not (length e.source == 0)
        && elim (lookup e.source r.source_to_id) [ none ↦ length id == 0 | some i ↦ equal i id ]
      then erase e.source r.source_to_id
      else r.source_to_id;
}

forget_found : Registry → Bytes → ℕ → Option Entry → Registry
forget_found r id sess none = r
forget_found r id sess (some e) = if not (e.session == sess) then r else delete_entry r id e

-- What `forgetWhenDone` does once `sess` has ended.
unfoldable pub forget : Registry → Bytes → ℕ → Registry
unfolding forget_found
forget r id sess = forget_found r id sess (lookup id r.entries)

-- `List`; the source returns the entries in no particular order.
unfoldable pub list : Registry → List Info
list r = map (λ e. e.1.info) r.entries

-- `Snapshot`; `content` is what the terminals' own `Snapshot` answers.
unfoldable pub snapshot : (ℕ → Bytes) → Registry → Bytes → Bytes
snapshot content r id = elim (lookup id r.entries) [ none ↦ [] | some e ↦ content e.session ]

-- `Add`, with the terminal that it closes.
unfoldable pub add : Registry → Bytes → Bytes → ℕ → ℕ → Registry × Option ℕ
add r id cmd now term = (
  record r { entries = set id (new_entry id cmd now term []) r.entries },
  elim (lookup id r.entries) [
    | none ↦ none
    | some old ↦ if old.session == term then none else some old.session
  ],
)

remove_found : Registry → Bytes → Option Entry → Registry × Option ℕ
remove_found r id none = (r, none)
remove_found r id (some e) = (delete_entry r id e, some e.session)

-- `Remove`, with the terminal that it closes.
unfoldable pub remove : Registry → Bytes → Registry × Option ℕ
unfolding remove_found
remove r id = remove_found r id (lookup id r.entries)

module _ (ended : ℕ → Bool) where
  abbrev pub alive : ℕ → Bool
  alive sess = not (ended sess)

  -- The tests of a looked-up entry, in `Get` and in `liveSourceLocked`.
  pub running : Option Entry → Option ℕ
  running none = none
  running (some e) = if not (alive e.session) then none else some e.session

  pub still_live : Option Entry → Option Entry
  still_live none = none
  still_live (some e) = if not (alive e.session) then none else some e

  unfoldable pub get : Registry → Bytes → Option ℕ
  unfolding running
  get r id = running (lookup id r.entries)

  pub live_entry : Registry → Option Bytes → Option Entry
  unfolding still_live
  live_entry r none = none
  live_entry r (some id) = still_live (lookup id r.entries)

  -- `liveSourceLocked`
  unfoldable pub live_source : Registry → Bytes → Option Entry
  unfolding live_entry
  live_source r src = live_entry r (lookup src r.source_to_id)

  -- The first critical section of `Create` and `CreateWithID`, which a plain session skips.
  unfoldable pub reusable : Registry → Bytes → Option Entry
  unfolding live_source
  reusable r src = if not (length src == 0) then live_source r src else none

-- The alias of a live session that `CreateWithID` registers.
unfoldable pub alias : Registry → Bytes → Entry → Registry
alias r id e = record r {
  entries = set id (new_entry id e.info.cmd e.info.created e.session []) r.entries;
}

-- The second critical section, for a session that was just started.
unfoldable pub register : Registry → Bytes → Bytes → ℕ → Bytes → ℕ → Registry
register r id cmd now src sess = record {
  entries = set id (new_entry id cmd now sess src) r.entries;
  source_to_id = if not (length src == 0) then set src id r.source_to_id else r.source_to_id;
}

-- `sourceKey`
after_slash : Bytes → Bytes → Bytes
after_slash base [] = base
after_slash base (b ∷ cmd) = if b == b'/' then after_slash cmd cmd else after_slash base cmd

trim_equals : Bytes → Bytes
trim_equals [] = []
trim_equals (b ∷ name) = if b == b'=' then name else b ∷ name

-- The argument behind the first `-s` that has one.
session_arg : List Bytes → Option Bytes
session_arg [] = none
session_arg (a ∷ []) = none
session_arg (a ∷ b ∷ args) =
    let rest = session_arg (b ∷ args) in if equal a (text "-s") then some b else rest

tmux_key : List Bytes → Bytes
unfolding trim_equals session_arg
tmux_key (a ∷ b ∷ c ∷ args) =
    if equal a (text "attach-session") && equal b (text "-t")
    then text "tmux:" ++ trim_equals c
    else if equal a (text "new-session")
    then elim (session_arg (a ∷ b ∷ c ∷ args)) [ none ↦ [] | some s ↦ text "tmux:" ++ s ]
    else []
tmux_key (a ∷ args) =
    if equal a (text "new-session")
    then elim (session_arg (a ∷ args)) [ none ↦ [] | some s ↦ text "tmux:" ++ s ]
    else []
tmux_key [] = []

screen_key : List Bytes → Bytes
screen_key (a ∷ b ∷ args) = if equal a (text "-x") then text "screen:" ++ b else []
screen_key _ = []

unfoldable pub source_key : Bytes → List Bytes → Bytes
unfolding after_slash tmux_key screen_key
source_key cmd args =
    let base = after_slash cmd cmd in
    if equal base (text "tmux")
    then tmux_key args
    else if equal base (text "screen")
    then screen_key args
    else []

-- The start of a new session: `started` is what `pty.New` answers, `none` for its error.
pub start_new : Registry → Bytes → Bytes → ℕ → Bytes → Option ℕ → Registry × Option ℕ
unfolding register
start_new r id cmd now src none = (r, none)
start_new r id cmd now src (some sess) = (register r id cmd now src sess, some sess)

-- `CreateWithID` behind its first test, with the terminal it returns, `none` for an error.
pub reuse_or_start :
    Registry → Bytes → Bytes → ℕ → Bytes → Option ℕ → Option Entry → Registry × Option ℕ
unfolding alias start_new
reuse_or_start r id cmd now src started (some e) = (alias r id e, some e.session)
reuse_or_start r id cmd now src started none = start_new r id cmd now src started

-- `CreateWithID` without other calls between its two critical sections; `Attach` has it with them.
unfoldable pub create_with_id :
    (ℕ → Bool) → Registry → Bytes → Bytes → List Bytes → ℕ → Option ℕ → Registry × Option ℕ
unfolding reusable reuse_or_start source_key
create_with_id ended r id cmd args now started =
    let src = source_key cmd args in reuse_or_start r id cmd now src started (reusable ended r src)

-- `Create`, with the identifier that `newID` draws; it registers no alias.
unfoldable pub create :
    (ℕ → Bool) → Registry → Bytes → Bytes → List Bytes → ℕ → Option ℕ → Registry × Option ℕ
unfolding reusable start_new source_key
create ended r id cmd args now started =
    let src = source_key cmd args in
    elim (reusable ended r src) [
      | some e ↦ (r, some e.session)
      | none ↦ start_new r id cmd now src started
    ]
