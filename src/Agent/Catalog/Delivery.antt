-- ===== src/Agent/Catalog/Delivery.antt =====
-- cmd/scomp/session_catalog.go and main.go: the way of a scan's changes to the main loop of a
-- connection. A subscriber is known by a number and holds what waits in its channel; `c.mu` makes
-- the publication one step.
pub mod Entries
pub mod Follows
pub mod Starts
pub mod Runs
mod Tests
use scomp_agent.Common.{
  equal, erase, ℕ, ◌+◌, ◌-◌, Bool, true, false, not, List, [], ◌∷◌, ◌++◌, map, ltb, ◌==◌,
  if◌then◌else◌, length, Map, set,
}
use scomp_agent.Vfs.Dirs.{less}
use scomp_agent.Agent.Handler.{State, send, session_remove, session_add, LazySession}
use scomp_agent.Agent.Catalog.{Change, added, removed}

-- The capacity of a subscriber's channel.
abbrev pub capacity : ℕ
capacity = 128

-- The `select` for one change and one subscriber.
unfoldable pub offer : Change → List Change → List Change
offer change waiting = if ltb (length waiting) capacity then waiting ++ change ∷ [] else waiting

unfoldable pub offer_all : List Change → List Change → List Change
unfolding offer
offer_all [] waiting = waiting
offer_all (change ∷ changes) waiting = offer_all changes (offer change waiting)

-- The loop over the subscribers, which a scan that is not to notify leaves out.
unfoldable pub publish : Bool → List Change → List (ℕ × List Change) → List (ℕ × List Change)
unfolding offer_all
publish true changes ((c, waiting) ∷ subs) =
    (c, offer_all changes waiting) ∷ publish true changes subs
publish true changes [] = []
publish false changes subs = subs

-- The main loop's case for a change.
unfoldable pub on_change : Change → State → State
on_change (removed id) s =
    if equal id []
    then s
    else send (session_remove id) (record s {
      lazy_map = erase id s.lazy_map;
      available = erase id s.available;
      modes = erase id s.modes;
    })
on_change (added ls) s =
    send (session_add ls false 0 0)
      (record s { lazy_map = set ls.id ls s.lazy_map; available = set ls.id ls s.available })

unfoldable pub on_changes : List Change → State → State
unfolding on_change
on_changes [] s = s
on_changes (change ∷ changes) s = on_changes changes (on_change change s)

-- `sort.Slice` by `cmd`
pub insert_entry : LazySession → List LazySession → List LazySession
insert_entry e [] = e ∷ []
insert_entry e (x ∷ es) =
    let rest = insert_entry e es in if less x.cmd e.cmd then x ∷ rest else e ∷ x ∷ es

pub sort_entries : List LazySession → List LazySession
unfolding insert_entry
sort_entries [] = []
sort_entries (e ∷ es) = insert_entry e (sort_entries es)

pub snapshot_and_subscribe :
    ℕ → Map LazySession → List (ℕ × List Change) → List LazySession × List (ℕ × List Change)
unfolding sort_entries
snapshot_and_subscribe c entries subs = (sort_entries (map (λ ke. ke.1) entries), (c, []) ∷ subs)

pub unsubscribe : ℕ → List (ℕ × List Change) → List (ℕ × List Change)
unsubscribe c [] = []
unsubscribe c ((d, waiting) ∷ subs) =
    let rest = unsubscribe c subs in if d == c then rest else (d, waiting) ∷ rest
