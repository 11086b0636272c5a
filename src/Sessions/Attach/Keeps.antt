-- ===== src/Sessions/Attach/Keeps.antt =====
-- A source keeps its terminal while the entry that it is known by is left alone.
use scomp_agent.Common.{
  equal, lookup, ℕ, ◌≡◌, refl, sym, ap, ◌∙◌, inl, inr, Bool, true, false, not, ◌&&◌, Option, none,
  some, List, [], ◌∷◌, arith, ◌==◌, if◌then◌else◌, ==_iff, Bool-cases, Bytes, equal_iff, set,
  lookup-erase, lookup-set,
}
use scomp_agent.Sessions.{
  Entry, Registry, new_entry, delete_entry, alias, register, remove_found, forget_found, forget,
  add, remove, reusable,
}
use scomp_agent.Sessions.Lookup.{lookup-delete_entry}
use scomp_agent.Sessions.Watch.{
  World, Op, put, share, start, drop_id, finish, cleanup, share_found, apply, waits, retire, run,
}

-- The source is known by the identifier `owner`, whose entry has the terminal `sess`, which runs.
pub record Holds (src owner : Bytes) (sess : ℕ) (w : World) : Type 0 where
  pub known : lookup src w.registry.source_to_id ≡ some owner
  pub entry : Entry
  pub found : lookup owner w.registry.entries ≡ some entry
  pub same : entry.session ≡ sess
  pub up : w.ended sess ≡ false

-- The step gives `owner` to nothing else and does not remove it, does not register another terminal
-- for the source, and is not the end of the terminal. Any cleanup is allowed.
abbrev pub Spares : Bytes → Bytes → ℕ → Op → Type 0
Spares src owner sess (put id cmd now term) = equal id owner ≡ false
Spares src owner sess (share id other) = equal id owner ≡ false
Spares src owner sess (start id cmd now other term) =
    (equal id owner ≡ false) × (equal other src ≡ false)
Spares src owner sess (drop_id id) = equal id owner ≡ false
Spares src owner sess (finish t) = (t == sess) ≡ false
Spares src owner sess (cleanup id t) = Unit

abbrev pub AllSpare : Bytes → Bytes → ℕ → List Op → Type 0
AllSpare src owner sess [] = Unit
AllSpare src owner sess (op ∷ ops) = Spares src owner sess op × AllSpare src owner sess ops

module _ (src owner : Bytes) (sess : ℕ) where
  set-Holds :
      {w : World} (id : Bytes) (x : Entry) (ws : List (Bytes × ℕ))
      → equal id owner ≡ false
      → Holds src owner sess w
      → Holds src owner sess (record w {
        registry = record w.registry { entries = set id x w.registry.entries };
        watchers = ws;
      })
  set-Holds {w} id x ws other h = record {
    known = h.known;
    entry = h.entry;
    found = rw (lookup-set id owner x w.registry.entries) (rw other h.found);
    same = h.same;
    up = h.up;
  }

  source-delete :
      (r : Registry) (id : Bytes) (x : Entry)
      → equal id owner ≡ false
      → lookup src r.source_to_id ≡ some owner
      → lookup src (delete_entry r id x).source_to_id ≡ some owner
  unfolding delete_entry
  source-delete r id x other known = ground (
    arith,
    lookup-erase x.source src r.source_to_id,
    equal_iff x.source src,
    equal_iff id owner,
    equal_iff owner id,
  )

  delete-Holds :
      {w : World} (id : Bytes) (x : Entry) (ws : List (Bytes × ℕ))
      → equal id owner ≡ false
      → Holds src owner sess w
      → Holds src owner sess (record w { registry = delete_entry w.registry id x; watchers = ws })
  delete-Holds {w} id x ws other h = record {
    known = source-delete w.registry id x other h.known;
    entry = h.entry;
    found = rw (lookup-delete_entry w.registry id owner x) (rw other h.found);
    same = h.same;
    up = h.up;
  }

  remove-Holds :
      (w : World) (id : Bytes) (o : Option Entry)
      → equal id owner ≡ false
      → Holds src owner sess w
      → Holds src owner sess (record w { registry = (remove_found w.registry id o).0 })
  unfolding remove_found
  remove-Holds w id none other h = h
  remove-Holds w id (some x) other h = delete-Holds id x w.watchers other h

  share-Holds :
      (w : World) (id : Bytes) (o : Option Entry)
      → equal id owner ≡ false
      → Holds src owner sess w
      → Holds src owner sess (share_found w id o)
  unfolding share_found alias
  share-Holds w id none other h = h
  share-Holds w id (some x) other h = set-Holds id _ _ other h

  start-Holds :
      (w : World) (id cmd : Bytes) (now : ℕ) (key : Bytes) (term : ℕ)
      → equal id owner ≡ false
      → equal key src ≡ false
      → Holds src owner sess w
      → Holds src owner sess (apply w (start id cmd now key term))
  unfolding apply register
  start-Holds w id cmd now key term other apart h = record {
    known = ground (arith, h.known, lookup-set key src id w.registry.source_to_id);
    entry = h.entry;
    found =
        rw (lookup-set id owner (new_entry id cmd now term key) w.registry.entries)
          (rw other h.found);
    same = h.same;
    up = h.up;
  }

  forget-if :
      (w : World) (id : Bytes) (x : Entry) (ws : List (Bytes × ℕ)) (b : Bool)
      → (b ≡ true → equal id owner ≡ false)
      → Holds src owner sess w
      → Holds src owner sess (record w {
        registry = if not b then w.registry else delete_entry w.registry id x;
        watchers = ws;
      })
  forget-if w id x ws true other h = delete-Holds id x ws (other refl) h
  forget-if w id x ws false other h = record {
    known = h.known;
    entry = h.entry;
    found = h.found;
    same = h.same;
    up = h.up;
  }

  -- A cleanup of `owner` is for another terminal, since `sess` runs.
  not_owner :
      {w : World} (id : Bytes) (t : ℕ) (x : Entry)
      → Holds src owner sess w
      → lookup id w.registry.entries ≡ some x
      → w.ended t ≡ true
      → (x.session == t) ≡ true
      → equal id owner ≡ false
  not_owner {w} id t x h at down its = elim (Bool-cases (equal id owner)) [
    | inl is ↦
        let id_is : id ≡ owner = (equal_iff id owner).0 is in
        let found : some x ≡ some h.entry =
          sym at ∙ ap (λ j. lookup j w.registry.entries) id_is ∙ h.found in
        let x_is : x ≡ h.entry = ground (arith, found) in
        let t_is : t ≡ sess =
          sym ((==_iff x.session t).0 its) ∙ ap (λ (e : Entry). e.session) x_is ∙ h.same in
        let clash : true ≡ false = sym down ∙ ap w.ended t_is ∙ h.up in cc
    | inr other ↦ other
  ]

  forget-Holds :
      (w : World) (id : Bytes) (t : ℕ) (ws : List (Bytes × ℕ)) (o : Option Entry)
      → lookup id w.registry.entries ≡ o
      → w.ended t ≡ true
      → Holds src owner sess w
      → Holds src owner sess (record w { registry = forget_found w.registry id t o; watchers = ws })
  unfolding forget_found
  forget-Holds w id t ws none at down h = record {
    known = h.known;
    entry = h.entry;
    found = h.found;
    same = h.same;
    up = h.up;
  }
  forget-Holds w id t ws (some x) at down h =
      forget-if w id x ws (x.session == t) (not_owner id t x h at down) h

  cleanup-Holds :
      (w : World) (id : Bytes) (t : ℕ) (b c : Bool)
      → w.ended t ≡ c
      → Holds src owner sess w
      → Holds src owner sess (
          if b && c
          then record w { registry = forget w.registry id t; watchers = retire id t w.watchers }
          else w)
  unfolding forget
  cleanup-Holds w id t true true down h =
      forget-Holds w id t (retire id t w.watchers) (lookup id w.registry.entries) refl down h
  cleanup-Holds w id t true false down h = h
  cleanup-Holds w id t false c down h = h

  finish-Holds :
      (w : World) (t : ℕ)
      → (t == sess) ≡ false
      → Holds src owner sess w
      → Holds src owner sess (apply w (finish t))
  unfolding apply
  finish-Holds w t other h = record {
    known = h.known;
    entry = h.entry;
    found = h.found;
    same = h.same;
    up = rw other h.up;
  }

  apply-Holds :
      (w : World) (op : Op)
      → Spares src owner sess op
      → Holds src owner sess w
      → Holds src owner sess (apply w op)
  unfolding apply add remove
  apply-Holds w (put id cmd now term) other h =
      set-Holds id (new_entry id cmd now term []) _ other h
  apply-Holds w (share id key) other h = share-Holds w id (reusable w.ended w.registry key) other h
  apply-Holds w (start id cmd now key term) other h =
      start-Holds w id cmd now key term other.0 other.1 h
  apply-Holds w (drop_id id) other h = remove-Holds w id (lookup id w.registry.entries) other h
  apply-Holds w (finish t) other h = finish-Holds w t other h
  apply-Holds w (cleanup id t) other h =
      cleanup-Holds w id t (waits id t w.watchers) (w.ended t) refl h

  pub run-Holds :
      (ops : List Op) (w : World)
      → AllSpare src owner sess ops
      → Holds src owner sess w
      → Holds src owner sess (run w ops)
  unfolding run
  run-Holds [] w others h = h
  run-Holds (op ∷ ops) w others h =
      run-Holds ops (apply w op) others.1 (apply-Holds w op others.0 h)
