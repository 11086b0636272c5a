-- ===== src/Agent/Catalog/Delivery/Follows.antt =====
-- The main loop's view of the catalog follows the catalog.
use scomp_agent.Common.{
  equal, lookup, ℕ, ◌+◌, ◌≤◌, ◌≡◌, refl, sym, ◌∙◌, ◌↔◌, inl, inr, Bool, true, false, Option, none,
  some, List, [], ◌∷◌, ◌++◌, map, append-nil, append_assoc, arith, ltb, if◌then◌else◌, lt→ltb,
  Bool-cases, Bytes, length, length-append, equal_iff, Map, set, lookup-erase, lookup-set,
}
use scomp_agent.Protocol.{SessionMode}
use scomp_agent.Agent.Handler.{LazySession, State}
use scomp_agent.Agent.Catalog.{
  Change, added, removed, new_entry, discover, discover_all, prune, keys_of, scan,
}
use scomp_agent.Agent.Catalog.Scan.{prune-lookup}
use scomp_agent.Agent.Catalog.Delivery.{capacity, offer, offer_all, on_change, on_changes}
use scomp_agent.Agent.Catalog.Delivery.Entries.{
  NoId, IsCatalog, IsCatalog-set, NoId-lookup, has_id, has_id-prune, IsCatalog-prune,
}

on_changes-append :
    (xs ys : List Change) (s : State) → on_changes (xs ++ ys) s ≡ on_changes ys (on_changes xs s)
unfolding on_changes
on_changes-append [] ys s = refl
on_changes-append (x ∷ xs) ys s = on_changes-append xs ys (on_change x s)

-- With room for all of them, the changes are all accepted, in order.
pub offer_all_room :
    (changes waiting : List Change)
    → length waiting + length changes ≤ capacity
    → offer_all changes waiting ≡ waiting ++ changes
unfolding offer_all offer
offer_all_room [] waiting h = sym (append-nil waiting)
offer_all_room (x ∷ changes) waiting h =
    let room : ltb (length waiting) capacity ≡ true = grind (arith, lt→ltb) in
    let fits : length (waiting ++ x ∷ []) + length changes ≤ capacity =
      omega (arith, length-append waiting (x ∷ [])) in
    rw room
      (offer_all_room changes (waiting ++ x ∷ []) fits ∙ append_assoc waiting (x ∷ []) changes)

-- The view holds an entry under its identifier when the catalog holds it under its name.
abbrev pub Agrees : Map LazySession → Map LazySession → Type 0
Agrees view entries =
    (e : LazySession) → (lookup e.id view ≡ some e) ↔ (lookup e.cmd entries ≡ some e)

Agrees-set :
    (x : LazySession) (view entries : Map LazySession)
    → lookup x.cmd entries ≡ none
    → NoId x.id entries
    → Agrees view entries
    → Agrees (set x.id x view) (set x.cmd x entries)
Agrees-set x view entries new only agrees e =
    let ids = equal_iff x.id e.id in
    let cmds = equal_iff x.cmd e.cmd in
    let by_id = lookup-set x.id e.id x view in
    let by_cmd = lookup-set x.cmd e.cmd x entries in
    let apart = NoId-lookup x.id e.cmd entries e only in
    let swap = equal_iff e.id x.id in
    (
      λ h. ground (arith, h, ids, cmds, by_id, by_cmd, swap, new, agrees e),
      λ h. ground (arith, h, ids, cmds, by_id, by_cmd, swap, apart, agrees e),
    )

lookup-removed :
    (id i : Bytes) (s : State)
    → equal i [] ≡ false
    → lookup i (on_change (removed id) s).available
      ≡ (if equal id i then none else lookup i s.available)
unfolding on_change
lookup-removed id i s named = elim (Bool-cases (equal id [])) [
  | inl empty ↦
      let apart : equal id i ≡ false =
        ground (arith, equal_iff id [], equal_iff id i, equal_iff i []) in
      rw (empty, apart) refl
  | inr full ↦ rw full (lookup-erase id i s.available)
]

lookup-removes :
    (gone : List LazySession) (s : State) (i : Bytes)
    → equal i [] ≡ false
    → lookup i (on_changes (map (λ e. removed e.id) gone) s).available
      ≡ (if has_id i gone then none else lookup i s.available)
unfolding on_changes has_id
lookup-removes [] s i named = refl
lookup-removes (e ∷ gone) s i named =
    lookup-removes gone (on_change (removed e.id) s) i named
    ∙ rw (lookup-removed e.id i s named) (ground arith)

named_id :
    (c : Bytes) (m : Map LazySession) (e : LazySession)
    → IsCatalog m
    → lookup c m ≡ some e
    → equal e.id [] ≡ false
unfolding lookup
named_id c [] e h at = ground arith
named_id c ((k, x) ∷ m) e (is, named, new, only, rest) at = elim (Bool-cases (equal k c)) [
  | inl same ↦ let x_is : x ≡ e = ground (arith, same, at) in rw (← x_is) named
  | inr other ↦ named_id c m e rest (rw other at at)
]

module _ (new_id : ℕ → Bytes) (now : ℕ) (mode : SessionMode) where
  -- Each identifier that is drawn is not the empty one and not that of an entry.
  unfoldable pub IsFresh : ℕ → Map LazySession × List Change → List Bytes → Type 0
  IsFresh drawn c [] = Unit
  IsFresh drawn c (key ∷ keys) =
      (equal (new_id drawn) [] ≡ false)
      × NoId (new_id drawn) c.0
      × IsFresh (drawn + 1) (discover new_id now mode drawn c key (lookup key c.0)) keys

  -- A catalog and the view that its changes give.
  abbrev Follows : State → Map LazySession × List Change → Type 0
  Follows s c = IsCatalog c.0 × Agrees (on_changes c.1 s).available c.0

  discover-Follows :
      (s : State) (drawn : ℕ) (c : Map LazySession × List Change) (key : Bytes)
      (o : Option LazySession)
      → lookup key c.0 ≡ o
      → equal (new_id drawn) [] ≡ false
      → NoId (new_id drawn) c.0
      → Follows s c
      → Follows s (discover new_id now mode drawn c key o)
  unfolding discover on_changes on_change
  discover-Follows s drawn c key (some x) at named only f = f
  discover-Follows s drawn (entries, changes) key none at named only (good, agrees) =
      let e = new_entry new_id now mode drawn key in
      (
        IsCatalog-set e entries named only good,
        rw (on_changes-append changes (added e ∷ []) s)
            (Agrees-set e (on_changes changes s).available entries at only agrees),
      )

  discover_all-Follows :
      (s : State) (keys : List Bytes) (drawn : ℕ) (c : Map LazySession × List Change)
      → IsFresh drawn c keys
      → Follows s c
      → Follows s (discover_all new_id now mode drawn c keys)
  unfolding discover_all IsFresh
  discover_all-Follows s [] drawn c fresh f = f
  discover_all-Follows s (key ∷ keys) drawn c (named, only, fresh) f =
      discover_all-Follows s keys (drawn + 1) _ fresh
        (discover-Follows s drawn c key (lookup key c.0) refl named only f)

removed-keeps :
    (id i : Bytes) (e : LazySession) (s : State)
    → lookup i (on_change (removed id) s).available ≡ some e
    → lookup i s.available ≡ some e
unfolding on_change
removed-keeps id i e s h = ground (arith, lookup-erase id i s.available)

removes-keep :
    (gone : List LazySession) (i : Bytes) (e : LazySession) (s : State)
    → lookup i (on_changes (map (λ x. removed x.id) gone) s).available ≡ some e
    → lookup i s.available ≡ some e
unfolding on_changes
removes-keep [] i e s h = h
removes-keep (x ∷ gone) i e s h =
    removed-keeps x.id i e s (removes-keep gone i e (on_change (removed x.id) s) h)

Agrees-prune :
    (keys : List Bytes) (found : Map LazySession) (s : State)
    → IsCatalog found
    → Agrees s.available found
    → Agrees
        (on_changes (map (λ e. removed e.id) (prune keys found).1) s).available
        (prune keys found).0
Agrees-prune keys found s good agrees e =
    let stays = prune-lookup keys found e.cmd in
    let goes = has_id-prune keys found e good in
    let gone = (prune keys found).1 in
    let view : lookup e.cmd found ≡ some e
        → lookup e.id (on_changes (map (λ e. removed e.id) gone) s).available
          ≡ (if has_id e.id gone then none else lookup e.id s.available) =
      λ held. lookup-removes gone s e.id (named_id e.cmd found e good held) in
    (
      λ h.
          let held = (agrees e).0 (removes-keep gone e.id e s h) in
          ground (arith, view held, stays, goes held),
      λ h.
          let held : lookup e.cmd found ≡ some e = ground (arith, stays, h) in
          ground (arith, view held, stays, goes held, (agrees e).1 held),
    )

-- The main loop's view follows the catalog: take a catalog in which every entry stands under its own
-- name with an identifier of its own, and a view that agrees with the catalog once the changes that
-- wait in the loop's channel are taken. If a scan draws identifiers that are not empty and not in use,
-- and the channel has room for its changes, then the catalog after the scan is such a one too, and
-- the view agrees with it once the changes that then wait are taken.
pub on_changes-scan :
    (new_id : ℕ → Bytes) (now : ℕ) (mode : SessionMode) (active : Bytes → Bool)
    (entries : Map LazySession) (tmux screen : List Bytes) (waiting : List Change) (s : State)
    → IsCatalog entries
    → IsFresh new_id now mode 0 (entries, []) (keys_of tmux screen)
    → Agrees (on_changes waiting s).available entries
    → length waiting + length (scan new_id now mode active entries tmux screen).changes ≤ capacity
    → let after = scan new_id now mode active entries tmux screen in
      IsCatalog after.entries
      × Agrees (on_changes (offer_all after.changes waiting) s).available after.entries
unfolding scan on_changes
on_changes-scan new_id now mode active entries tmux screen waiting s good fresh agrees room =
    let keys = keys_of tmux screen in
    let t = on_changes waiting s in
    let c = discover_all new_id now mode 0 (entries, []) keys in
    let gone : List Change = map (λ e. removed e.id) (prune keys c.0).1 in
    let found = discover_all-Follows new_id now mode t keys 0 (entries, []) fresh (good, agrees) in
    let pruned = Agrees-prune keys c.0 (on_changes c.1 t) found.0 found.1 in
    (
      IsCatalog-prune keys c.0 found.0,
      rw
          (
            offer_all_room (c.1 ++ gone) waiting room,
            on_changes-append waiting (c.1 ++ gone) s,
            on_changes-append c.1 gone t,
          )
          pruned,
    )
