-- ===== src/Sessions/Create.antt =====
-- What `CreateWithID` leaves behind, on each of its branches.
use scomp_agent.Common.{
  equal, lookup, ℕ, ◌≡◌, refl, ◌≢◌, ◌⊎◌, inl, inr, Bool, true, false, Option, none, some, List, [],
  ◌∷◌, arith, ◌==◌, if◌then◌else◌, Bytes, length, equal_refl, Map, set, lookup-set,
}
use scomp_agent.Sessions.{
  new_entry, Entry, Registry, get, running, still_live, live_entry, live_source, alias, register,
  source_key, create_with_id, reuse_or_start, start_new,
}

module _ (ended : ℕ → Bool) where
  -- What a new entry for `sess` under `id` makes of the answers of `Get`.
  abbrev pub Serves : Registry → Registry → Bytes → ℕ → Type 0
  Serves r r' id sess =
      (j : Bytes)
      → get ended r' j
        ≡ (if equal id j then (if ended sess then none else some sess) else get ended r j)

  get-set :
      (r : Registry) (id j : Bytes) (e : Entry) (m : Map Bytes)
      → get ended (record { entries = set id e r.entries; source_to_id = m }) j
        ≡ (if equal id j then (if ended e.session then none else some e.session) else get ended r j)
  unfolding get running
  get-set r id j e m = rw (lookup-set id j e r.entries) (ground arith)

  alias-Serves : (r : Registry) (id : Bytes) (e : Entry) → Serves r (alias r id e) id e.session
  unfolding alias
  alias-Serves r id e j = get-set r id j _ r.source_to_id

  register-Serves :
      (r : Registry) (id cmd : Bytes) (now : ℕ) (src : Bytes) (sess : ℕ)
      → Serves r (register r id cmd now src sess) id sess
  unfolding register
  register-Serves r id cmd now src sess j = get-set r id j _ _

  -- An error changes nothing; a terminal is what `id` now stands for.
  abbrev pub Created : Registry → Bytes → Registry × Option ℕ → Type 0
  Created r id (r', o) =
      ((o ≡ none) × (r' ≡ r)) ⊎ ((sess : ℕ) × (o ≡ some sess) × Serves r r' id sess)

  reuse_or_start-Created :
      (r : Registry) (id cmd : Bytes) (now : ℕ) (src : Bytes) (started : Option ℕ)
      (o : Option Entry)
      → Created r id (reuse_or_start r id cmd now src started o)
  unfolding reuse_or_start start_new
  reuse_or_start-Created r id cmd now src started (some e) =
      inr (e.session, refl, alias-Serves r id e)
  reuse_or_start-Created r id cmd now src (some sess) none =
      inr (sess, refl, register-Serves r id cmd now src sess)
  reuse_or_start-Created r id cmd now src none none = inl (refl, refl)

  -- Where `CreateWithID` fails, the registry is as before. Where it returns a terminal, started or
  -- reused, `Get` answers that terminal for the identifier as long as it runs, and for every other
  -- identifier what it answered before.
  pub create_with_id-Created :
      (r : Registry) (id cmd : Bytes) (args : List Bytes) (now : ℕ) (started : Option ℕ)
      → Created r id (create_with_id ended r id cmd args now started)
  unfolding create_with_id
  create_with_id-Created r id cmd args now started =
      reuse_or_start-Created r id cmd now (source_key cmd args) started _

  pub still_live_lem :
      (o : Option Entry) (e : Entry)
      → still_live ended o ≡ some e
      → (o ≡ some e) × (ended e.session ≡ false)
  unfolding still_live
  still_live_lem none e h = ground arith
  still_live_lem (some x) e h = ground arith

  -- A running session that serves `src`.
  abbrev pub ServedBy : Registry → Bytes → ℕ → Type 0
  ServedBy r src sess = (e : Entry) × (live_source ended r src ≡ some e) × (e.session ≡ sess)

  still_live-if :
      (b : Bool) (x e : Entry) (o : Option Entry)
      → x.session ≡ e.session
      → still_live ended o ≡ some e
      → (y : Entry) × (still_live ended (if b then some x else o) ≡ some y)
        × (y.session ≡ e.session)
  unfolding still_live
  still_live-if true x e o same h = (x, ground (arith, still_live_lem o e h), same)
  still_live-if false x e o same h = (e, h, refl)

  live_entry-alias :
      (r : Registry) (id : Bytes) (e : Entry) (k : Option Bytes)
      → live_entry ended r k ≡ some e
      → (x : Entry) × (live_entry ended (alias r id e) k ≡ some x) × (x.session ≡ e.session)
  unfolding live_entry still_live alias
  live_entry-alias r id e none h = ground arith
  live_entry-alias r id e (some i) h =
      rw (lookup-set id i _ r.entries) (still_live-if (equal id i) _ e (lookup i r.entries) refl h)

  pub alias-ServedBy :
      (r : Registry) (id src : Bytes) (e : Entry)
      → live_source ended r src ≡ some e
      → ServedBy (alias r id e) src e.session
  unfolding live_source alias
  alias-ServedBy r id src e h = live_entry-alias r id e (lookup src r.source_to_id) h

  pub register-ServedBy :
      (r : Registry) (id cmd : Bytes) (now : ℕ) (src : Bytes) (sess : ℕ)
      → (length src == 0) ≡ false
      → ended sess ≡ false
      → ServedBy (register r id cmd now src sess) src sess
  unfolding live_source live_entry still_live register
  register-ServedBy r id cmd now src sess h up = (
    new_entry id cmd now sess src,
    simp (
      h,
      lookup-set src src id r.source_to_id,
      equal_refl src,
      lookup-set id id (new_entry id cmd now sess src) r.entries,
      equal_refl id,
      up,
    ),
    refl,
  )

  pub nonempty : (s : Bytes) → s ≢ [] → (length s == 0) ≡ false
  nonempty [] ne = absurd (ne refl)
  nonempty (b ∷ s) ne = ground arith
