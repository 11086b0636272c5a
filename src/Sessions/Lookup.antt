-- ===== src/Sessions/Lookup.antt =====
-- What the registry's lookups answer, and that a late cleanup does not show in them.
use scomp_agent.Common.{
  equal, lookup, erase, ℕ, ◌≡◌, refl, sym, inl, inr, Bool, true, false, Option, none, some, arith,
  ◌==◌, if◌then◌else◌, ==_iff, Bool-cases, Bytes, length, equal_iff, lookup-erase,
}
use scomp_agent.Sessions.{
  Entry, Registry, delete_entry, forget, forget_found, get, running, still_live, live_entry,
  live_source,
}

pub lookup-delete_entry :
    (r : Registry) (id j : Bytes) (e : Entry)
    → lookup j (delete_entry r id e).entries ≡ (if equal id j then none else lookup j r.entries)
unfolding delete_entry
lookup-delete_entry r id j e = lookup-erase id j r.entries

module _ (ended : ℕ → Bool) where
  get-delete_entry :
      (r : Registry) (id j : Bytes) (e : Entry)
      → ended e.session ≡ true
      → lookup id r.entries ≡ some e
      → get ended (delete_entry r id e) j ≡ get ended r j
  unfolding get running
  get-delete_entry r id j e h at =
      rw (lookup-delete_entry r id j e) (ground (arith, equal_iff id j, at, h))

  get-forget_found :
      (r : Registry) (id : Bytes) (sess : ℕ) (j : Bytes) (o : Option Entry)
      → ended sess ≡ true
      → lookup id r.entries ≡ o
      → get ended (forget_found r id sess o) j ≡ get ended r j
  unfolding forget_found
  get-forget_found r id sess j none h at = refl
  get-forget_found r id sess j (some e) h at =
      ground (arith, get-delete_entry r id j e, ==_iff e.session sess, h, at)

  -- `Get` answers the same before and after the cleanup of a session that has ended: the cleanup
  -- of an old session does not take a new one away that was given its identifier.
  pub get-forget :
      (r : Registry) (id : Bytes) (sess : ℕ) (j : Bytes)
      → ended sess ≡ true
      → get ended (forget r id sess) j ≡ get ended r j
  unfolding forget
  get-forget r id sess j h = get-forget_found r id sess j (lookup id r.entries) h refl

  live_entry-delete_entry :
      (r : Registry) (id : Bytes) (e : Entry) (k : Option Bytes)
      → ended e.session ≡ true
      → lookup id r.entries ≡ some e
      → live_entry ended (delete_entry r id e) k ≡ live_entry ended r k
  unfolding live_entry still_live
  live_entry-delete_entry r id e none h at = refl
  live_entry-delete_entry r id e (some i) h at =
      rw (lookup-delete_entry r id i e) (ground (arith, equal_iff id i, at, h))

  -- A source that the deleted entry's identifier serves has no running session.
  unserved :
      (r : Registry) (id : Bytes) (e : Entry) (k : Option Bytes)
      → ended e.session ≡ true
      → lookup id r.entries ≡ some e
      → (elim k [ none ↦ length id == 0 | some i ↦ equal i id ]) ≡ true
      → live_entry ended r k ≡ none
  unfolding live_entry still_live
  unserved r id e none h at t = refl
  unserved r id e (some i) h at t = ground (arith, equal_iff i id, at, h)

  live_entry-erase :
      (r : Registry) (id : Bytes) (e : Entry) (src : Bytes) (b : Bool)
      → ended e.session ≡ true
      → lookup id r.entries ≡ some e
      → (b ≡ true → live_entry ended r (lookup e.source r.source_to_id) ≡ none)
      → live_entry ended
          (delete_entry r id e)
          (lookup src (if b then erase e.source r.source_to_id else r.source_to_id))
        ≡ live_entry ended r (lookup src r.source_to_id)
  unfolding live_entry
  live_entry-erase r id e src false h at f =
      live_entry-delete_entry r id e (lookup src r.source_to_id) h at
  live_entry-erase r id e src true h at f =
      rw (lookup-erase e.source src r.source_to_id) (elim (Bool-cases (equal e.source src)) [
        | inl same ↦ rw same (rw (← (equal_iff e.source src).0 same) (sym (f refl)))
        | inr other ↦ rw other (live_entry-delete_entry r id e (lookup src r.source_to_id) h at)
      ])

  live_source-delete_entry :
      (r : Registry) (id : Bytes) (e : Entry) (src : Bytes)
      → ended e.session ≡ true
      → lookup id r.entries ≡ some e
      → live_source ended (delete_entry r id e) src ≡ live_source ended r src
  unfolding live_source delete_entry
  live_source-delete_entry r id e src h at =
      live_entry-erase r id e src _ h at
        λ t. unserved r id e (lookup e.source r.source_to_id) h at (ground arith)

  live_source-forget_found :
      (r : Registry) (id : Bytes) (sess : ℕ) (src : Bytes) (o : Option Entry)
      → ended sess ≡ true
      → lookup id r.entries ≡ o
      → live_source ended (forget_found r id sess o) src ≡ live_source ended r src
  unfolding forget_found
  live_source-forget_found r id sess src none h at = refl
  live_source-forget_found r id sess src (some e) h at =
      ground (arith, live_source-delete_entry r id e src, ==_iff e.session sess, h, at)

  -- The cleanup of a session that has ended does not change which running session serves a source.
  pub live_source-forget :
      (r : Registry) (id : Bytes) (sess : ℕ) (src : Bytes)
      → ended sess ≡ true
      → live_source ended (forget r id sess) src ≡ live_source ended r src
  unfolding forget
  live_source-forget r id sess src h =
      live_source-forget_found r id sess src (lookup id r.entries) h refl
