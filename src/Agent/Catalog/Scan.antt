-- ===== src/Agent/Catalog/Scan.antt =====
-- After a scan the catalog holds just the listed sessions, and those it held before unchanged.
use scomp_agent.Common.{
  equal, lookup, ℕ, ◌+◌, ◌≡◌, refl, sym, ap, ◌∙◌, ◌⊎◌, inl, inr, Bool, true, false, Option, none,
  some, List, [], ◌∷◌, arith, if◌then◌else◌, Bool-cases, Option-cases, Bytes, equal_iff, equal_refl,
  Map, lookup-set,
}
use scomp_agent.Protocol.{SessionMode}
use scomp_agent.Agent.Handler.{LazySession}
use scomp_agent.Agent.Catalog.{
  Change, keys_of, present, new_entry, discover, discover_all, prune, scan,
}

pub prune-lookup :
    (keys : List Bytes) (entries : Map LazySession) (key : Bytes)
    → lookup key (prune keys entries).0 ≡ (if present keys key then lookup key entries else none)
unfolding prune lookup
prune-lookup keys [] key = ground arith
prune-lookup keys ((k, e) ∷ entries) key =
    ground (arith, prune-lookup keys entries key, equal_iff k key)

module _ (new_id : ℕ → Bytes) (now : ℕ) (mode : SessionMode) where
  discover-keeps :
      (drawn : ℕ) (c : Map LazySession × List Change) (k key : Bytes) (e : LazySession)
      (o : Option LazySession)
      → lookup k c.0 ≡ o
      → lookup key c.0 ≡ some e
      → lookup key (discover new_id now mode drawn c k o).0 ≡ some e
  unfolding discover
  discover-keeps drawn c k key e (some x) at h = h
  discover-keeps drawn (entries, changes) k key e none at h =
      rw (lookup-set k key (new_entry new_id now mode drawn k) entries)
        (ground (arith, equal_iff k key, at, h))

  discover_all-keeps :
      (keys : List Bytes) (drawn : ℕ) (c : Map LazySession × List Change) (key : Bytes)
      (e : LazySession)
      → lookup key c.0 ≡ some e
      → lookup key (discover_all new_id now mode drawn c keys).0 ≡ some e
  unfolding discover_all
  discover_all-keeps [] drawn c key e h = h
  discover_all-keeps (k ∷ keys) drawn c key e h =
      discover_all-keeps keys (drawn + 1) _ key e
        (discover-keeps drawn c k key e (lookup k c.0) refl h)

  discover-finds :
      (drawn : ℕ) (c : Map LazySession × List Change) (k : Bytes) (o : Option LazySession)
      → lookup k c.0 ≡ o
      → (e : LazySession) × (lookup k (discover new_id now mode drawn c k o).0 ≡ some e)
  unfolding discover lookup
  discover-finds drawn c k (some x) at = (x, at)
  discover-finds drawn (entries, changes) k none at =
      (new_entry new_id now mode drawn k, rw (equal_refl k) refl)

  discover_all-finds :
      (keys : List Bytes) (drawn : ℕ) (c : Map LazySession × List Change) (key : Bytes)
      → present keys key ≡ true
      → (e : LazySession) × (lookup key (discover_all new_id now mode drawn c keys).0 ≡ some e)
  unfolding discover_all present
  discover_all-finds [] drawn c key h = ground arith
  discover_all-finds (k ∷ keys) drawn c key h = elim (Bool-cases (equal k key)) [
    | inl same ↦
        let next = discover new_id now mode drawn c k (lookup k c.0) in
        let (e, at) = discover-finds drawn c k (lookup k c.0) refl in
        let is : k ≡ key = (equal_iff k key).0 same in
        (
          e,
          discover_all-keeps keys (drawn + 1) next key e (ap (λ x. lookup x next.0) (sym is) ∙ at),
        )
    | inr other ↦ discover_all-finds keys (drawn + 1) _ key (rw other at h)
  ]

  -- A scan brings the catalog in line with the listings: a key that is listed has an entry, which is
  -- the one it had before, if it had one, so that its identifier stays; a key that is not listed has
  -- none.
  pub scan-lookup :
      (active : Bytes → Bool) (entries : Map LazySession) (tmux screen : List Bytes) (key : Bytes)
      → let after = lookup key (scan new_id now mode active entries tmux screen).entries in
        ((present (keys_of tmux screen) key ≡ false) × (after ≡ none))
        ⊎ ((present (keys_of tmux screen) key ≡ true)
            × ((e : LazySession) × (after ≡ some e))
            × ((lookup key entries ≡ none) ⊎ (after ≡ lookup key entries)))
  unfolding scan
  scan-lookup active entries tmux screen key =
      let keys = keys_of tmux screen in
      let found = (discover_all new_id now mode 0 (entries, []) keys).0 in
      let after : lookup key (prune keys found).0
          ≡ (if present keys key then lookup key found else none) =
        prune-lookup keys found key in
      elim (Bool-cases (present keys key)) [
        | inl listed ↦
            let at : lookup key (prune keys found).0 ≡ lookup key found = after ∙ rw listed in
            let (e, is) = discover_all-finds keys 0 (entries, []) key listed in
            inr (
              listed,
              (e, at ∙ is),
              elim (Option-cases (lookup key entries)) [
                | inl new ↦ inl new
                | inr old ↦
                    inr (at ∙ discover_all-keeps keys 0 (entries, []) key old.0 old.1 ∙ sym old.1)
              ],
            )
        | inr unlisted ↦ inl (unlisted, after ∙ rw unlisted)
      ]
