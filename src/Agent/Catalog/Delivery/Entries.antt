-- ===== src/Agent/Catalog/Delivery/Entries.antt =====
-- The entries of a catalog under a scan: each stands under its own name, and no two share an
-- identifier.
use scomp_agent.Common.{
  equal, lookup, erase, ◌≡◌, refl, inl, inr, Bool, true, false, not, none, some, List, [], ◌∷◌,
  arith, if◌then◌else◌, Bool-cases, Bytes, equal_iff, equal_refl, Map, set, lookup-erase_same,
  lookup-erase,
}
use scomp_agent.Agent.Handler.{LazySession}
use scomp_agent.Agent.Catalog.{present, prune}
use scomp_agent.Agent.Catalog.Scan.{prune-lookup}

-- No entry has the identifier.
abbrev pub NoId : Bytes → Map LazySession → Type 0
NoId i [] = Unit
NoId i ((k, e) ∷ m) = (equal e.id i ≡ false) × NoId i m

abbrev pub IsCatalog : Map LazySession → Type 0
IsCatalog [] = Unit
IsCatalog ((k, e) ∷ m) =
    (k ≡ e.cmd) × (equal e.id [] ≡ false) × (lookup k m ≡ none) × NoId e.id m × IsCatalog m

NoId-erase : (i k : Bytes) (m : Map LazySession) → NoId i m → NoId i (erase k m)
unfolding erase
NoId-erase i k [] h = tt
NoId-erase i k ((j, e) ∷ m) h = elim (Bool-cases (equal j k)) [
  | inl same ↦ rw same (NoId-erase i k m h.1)
  | inr other ↦ rw other (h.0, NoId-erase i k m h.1)
]

absent-erase : (k j : Bytes) (m : Map LazySession) → lookup j m ≡ none → lookup j (erase k m) ≡ none
absent-erase k j m h = ground (arith, lookup-erase k j m, h)

IsCatalog-erase : (k : Bytes) (m : Map LazySession) → IsCatalog m → IsCatalog (erase k m)
unfolding erase
IsCatalog-erase k [] h = tt
IsCatalog-erase k ((j, e) ∷ m) (at, named, new, only, rest) = elim (Bool-cases (equal j k)) [
  | inl same ↦ rw same (IsCatalog-erase k m rest)
  | inr other ↦
      rw other
        (at, named, absent-erase k j m new, NoId-erase e.id k m only, IsCatalog-erase k m rest)
]

pub IsCatalog-set :
    (e : LazySession) (m : Map LazySession)
    → equal e.id [] ≡ false
    → NoId e.id m
    → IsCatalog m
    → IsCatalog (set e.cmd e m)
IsCatalog-set e m named only h = (
  refl,
  named,
  lookup-erase_same e.cmd m,
  NoId-erase e.id e.cmd m only,
  IsCatalog-erase e.cmd m h,
)

-- An entry that is found has not the identifier that none has.
pub NoId-lookup :
    (i c : Bytes) (m : Map LazySession) (e : LazySession)
    → NoId i m
    → lookup c m ≡ some e
    → equal e.id i ≡ false
unfolding lookup
NoId-lookup i c [] e h at = ground arith
NoId-lookup i c ((k, x) ∷ m) e h at = elim (Bool-cases (equal k c)) [
  | inl same ↦ let is : x ≡ e = ground (arith, same, at) in rw (← is) h.0
  | inr other ↦ NoId-lookup i c m e h.1 (rw other at at)
]

NoId-prune :
    (keys : List Bytes) (i : Bytes) (m : Map LazySession) → NoId i m → NoId i (prune keys m).0
unfolding prune
NoId-prune keys i [] h = tt
NoId-prune keys i ((k, e) ∷ m) h = elim (Bool-cases (present keys k)) [
  | inl stays ↦ rw stays (h.0, NoId-prune keys i m h.1)
  | inr goes ↦ rw goes (NoId-prune keys i m h.1)
]

absent-prune :
    (keys : List Bytes) (j : Bytes) (m : Map LazySession)
    → lookup j m ≡ none
    → lookup j (prune keys m).0 ≡ none
absent-prune keys j m h = ground (arith, prune-lookup keys m j, h)

pub IsCatalog-prune :
    (keys : List Bytes) (m : Map LazySession) → IsCatalog m → IsCatalog (prune keys m).0
unfolding prune
IsCatalog-prune keys [] h = tt
IsCatalog-prune keys ((j, e) ∷ m) (at, named, new, only, rest) =
    elim (Bool-cases (present keys j)) [
      | inl stays ↦ rw stays (
        at,
        named,
        absent-prune keys j m new,
        NoId-prune keys e.id m only,
        IsCatalog-prune keys m rest,
      )
      | inr goes ↦ rw goes (IsCatalog-prune keys m rest)
    ]

-- Whether one of the entries has the identifier.
unfoldable pub has_id : Bytes → List LazySession → Bool
has_id i [] = false
has_id i (e ∷ es) = if equal e.id i then true else has_id i es

has_id-prune_none :
    (keys : List Bytes) (i : Bytes) (m : Map LazySession)
    → NoId i m
    → has_id i (prune keys m).1 ≡ false
unfolding has_id prune
has_id-prune_none keys i [] h = refl
has_id-prune_none keys i ((k, e) ∷ m) h = ground (arith, has_id-prune_none keys i m h.1, h.0)

-- The identifier of an entry goes just when its name is not listed.
pub has_id-prune :
    (keys : List Bytes) (m : Map LazySession) (e : LazySession)
    → IsCatalog m
    → lookup e.cmd m ≡ some e
    → has_id e.id (prune keys m).1 ≡ not (present keys e.cmd)
unfolding has_id prune lookup
has_id-prune keys [] e h at = ground arith
has_id-prune keys ((k, x) ∷ m) e (is, named, new, only, rest) at =
    elim (Bool-cases (equal k e.cmd)) [
      | inl same ↦
          let x_is : x ≡ e = ground (arith, same, at) in
          let gone : has_id e.id (prune keys m).1 ≡ false =
            has_id-prune_none keys e.id m (rw (← x_is) only) in
          let key : k ≡ e.cmd = (equal_iff k e.cmd).0 same in
          rw (key, x_is) (ground (arith, gone, equal_refl e.id))
      | inr other ↦
          let at' : lookup e.cmd m ≡ some e = rw other at at in
          let apart : equal e.id x.id ≡ false = NoId-lookup x.id e.cmd m e only at' in
          let apart' : equal x.id e.id ≡ false =
            ground (arith, apart, equal_iff e.id x.id, equal_iff x.id e.id) in
          ground (arith, has_id-prune keys m e rest at', apart')
    ]
