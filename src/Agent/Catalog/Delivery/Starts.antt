-- ===== src/Agent/Catalog/Delivery/Starts.antt =====
-- When a connection starts, the main loop's view is the catalog.
use scomp_agent.Common.{
  equal, lookup, ℕ, ◌≡◌, refl, sym, ◌∙◌, ◌↔◌, inl, inr, false, Option, none, some, List, [], ◌∷◌,
  map, arith, if◌then◌else◌, Bool-cases, Bytes, equal_iff, Map, lookup-set,
}
use scomp_agent.Vfs.Dirs.{less}
use scomp_agent.Agent.Handler.{LazySession, State, Outside}
use scomp_agent.Agent.Handler.Start.{announce, announce_all, announce_available}
use scomp_agent.Agent.Catalog.{Change}
use scomp_agent.Agent.Catalog.Delivery.{insert_entry, sort_entries, snapshot_and_subscribe}
use scomp_agent.Agent.Catalog.Delivery.Entries.{NoId, IsCatalog, NoId-lookup}
use scomp_agent.Agent.Catalog.Delivery.Follows.{Agrees}

-- The first entry with an identifier.
unfoldable find : Bytes → List LazySession → Option LazySession
find i [] = none
find i (e ∷ es) = if equal e.id i then some e else find i es

-- No identifier occurs twice.
abbrev IsDistinct : List LazySession → Type 0
IsDistinct [] = Unit
IsDistinct (e ∷ es) = (find e.id es ≡ none) × IsDistinct es

or_else : Option LazySession → Option LazySession → Option LazySession
or_else none o = o
or_else (some e) o = some e

or_else_nothing : (o : Option LazySession) → or_else o none ≡ o
unfolding or_else
or_else_nothing none = refl
or_else_nothing (some e) = refl

lookup-announce_all :
    (out : Outside) (lazy : List LazySession) (s : State) (i : Bytes)
    → IsDistinct lazy
    → lookup i (announce_all out lazy s).available ≡ or_else (find i lazy) (lookup i s.available)
unfolding announce_all find or_else
lookup-announce_all out [] s i d = refl
lookup-announce_all out (e ∷ lazy) s i (new, d) =
    let rest = lookup-announce_all out lazy (announce out e s) i d in
    let step : lookup i (announce out e s).available
        ≡ (if equal e.id i then some e else lookup i s.available) =
      rw (announce_available out e s) (lookup-set e.id i e s.available) in
    elim (Bool-cases (equal e.id i)) [
      | inl same ↦
          let is : e.id ≡ i = (equal_iff e.id i).0 same in
          let gone : find i lazy ≡ none = rw (← is) new in rest ∙ rw (gone, step, same) refl
      | inr other ↦ rest ∙ rw (step, other) refl
    ]

find-insert :
    (i : Bytes) (e : LazySession) (es : List LazySession)
    → find e.id es ≡ none
    → find i (insert_entry e es) ≡ (if equal e.id i then some e else find i es)
unfolding find insert_entry
find-insert i e [] new = refl
find-insert i e (x ∷ es) new =
    let apart : equal x.id e.id ≡ false = ground (arith, new) in
    let rest = find-insert i e es (ground (arith, new, apart)) in
    ground (arith, rest, apart, equal_iff x.id e.id, equal_iff x.id i, equal_iff e.id i)

insert-IsDistinct :
    (e : LazySession) (es : List LazySession)
    → find e.id es ≡ none
    → IsDistinct es
    → IsDistinct (insert_entry e es)
unfolding find insert_entry
insert-IsDistinct e [] new d = (refl, tt)
insert-IsDistinct e (x ∷ es) new d =
    let apart : equal x.id e.id ≡ false = ground (arith, new) in
    let new' : find e.id es ≡ none = ground (arith, new, apart) in
    let apart' : equal e.id x.id ≡ false =
      ground (arith, apart, equal_iff x.id e.id, equal_iff e.id x.id) in
    elim (Bool-cases (less x.cmd e.cmd)) [
      | inl before ↦
          let at : find x.id (insert_entry e es) ≡ none =
            find-insert x.id e es new' ∙ rw apart' d.0 in
          rw before (at, insert-IsDistinct e es new' d.1)
      | inr after ↦ rw after (new, d)
    ]

-- Sorting changes neither that nor what is found.
sort_entries_lem :
    (es : List LazySession)
    → IsDistinct es
    → IsDistinct (sort_entries es) × ((i : Bytes) → find i (sort_entries es) ≡ find i es)
unfolding sort_entries find
sort_entries_lem [] d = (tt, λ i. refl)
sort_entries_lem (e ∷ es) (new, d) =
    let (sorted, same) = sort_entries_lem es d in
    let new' : find e.id (sort_entries es) ≡ none = same e.id ∙ new in
    (
      insert-IsDistinct e (sort_entries es) new' sorted,
      λ i. find-insert i e (sort_entries es) new' ∙ rw (same i) refl,
    )

abbrev values : Map LazySession → List LazySession
values entries = map (λ ke. ke.1) entries

find-NoId : (i : Bytes) (m : Map LazySession) → NoId i m → find i (values m) ≡ none
unfolding find
find-NoId i [] h = refl
find-NoId i ((k, e) ∷ m) h = rw h.0 (find-NoId i m h.1)

values-IsDistinct : (m : Map LazySession) → IsCatalog m → IsDistinct (values m)
values-IsDistinct [] h = tt
values-IsDistinct ((k, e) ∷ m) (is, named, new, only, rest) =
    (find-NoId e.id m only, values-IsDistinct m rest)

find-values :
    (m : Map LazySession) (e : LazySession)
    → IsCatalog m
    → (find e.id (values m) ≡ some e) ↔ (lookup e.cmd m ≡ some e)
unfolding find lookup
find-values [] e h = ((λ none_is. none_is), (λ none_is. none_is))
find-values ((k, x) ∷ m) e (is, named, new, only, rest) =
    let below = find-values m e rest in
    let apart = NoId-lookup x.id e.cmd m e only in
    let ids = equal_iff x.id e.id in
    let swap = equal_iff e.id x.id in
    let by_name = equal_iff k e.cmd in
    (
      λ h. ground (arith, h, below, new, is, ids, by_name),
      λ h. ground (arith, h, below, apart, is, ids, swap, by_name),
    )

-- When a connection starts, with nothing announced yet, the main loop's view is the catalog: the view
-- that it builds from the sorted snapshot holds an entry under its identifier just when the catalog
-- holds it under its name.
pub announce_all-snapshot :
    (out : Outside) (c : ℕ) (entries : Map LazySession) (subs : List (ℕ × List Change)) (s : State)
    → IsCatalog entries
    → s.available ≡ []
    → Agrees (announce_all out (snapshot_and_subscribe c entries subs).0 s).available entries
unfolding snapshot_and_subscribe or_else lookup
announce_all-snapshot out c entries subs s good empty e =
    let (sorted, same) = sort_entries_lem (values entries) (values-IsDistinct entries good) in
    let none_yet : lookup e.id s.available ≡ none = rw empty refl in
    let at : lookup e.id (announce_all out (sort_entries (values entries)) s).available
        ≡ or_else (find e.id (values entries)) none =
      lookup-announce_all out (sort_entries (values entries)) s e.id sorted
      ∙ rw (same e.id, none_yet) refl in
    let held = find-values entries e good in
    let is = at ∙ or_else_nothing (find e.id (values entries)) in
    (λ h. held.0 (sym is ∙ h), λ h. is ∙ held.1 h)
