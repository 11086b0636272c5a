-- ===== src/Sessions/Watch.antt =====
-- internal/sessions: the registry together with the goroutines that wait in `forgetWhenDone`, in
-- every order in which their steps and the methods' critical sections can happen.
use scomp_agent.Common.{
  equal, lookup, ℕ, ◌≡◌, refl, Bool, true, false, ◌&&◌, Option, none, some, List, [], ◌∷◌, arith,
  ◌==◌, if◌then◌else◌, Bytes, equal_iff, Map, set, lookup-set,
}
use scomp_agent.Sessions.{
  Entry, Registry, new, delete_entry, forget, add, remove, reusable, alias, register, new_entry,
  forget_found, remove_found,
}
use scomp_agent.Sessions.Lookup.{lookup-delete_entry}

-- `watchers` are the waiting goroutines, by the arguments they were started with.
pub record World : Type 0 where
  pub registry : Registry
  pub ended : ℕ → Bool
  pub watchers : List (Bytes × ℕ)

abbrev is_watcher : Bytes → ℕ → Bytes × ℕ → Bool
is_watcher id t (j, u) = equal j id && u == t

unfoldable pub waits : Bytes → ℕ → List (Bytes × ℕ) → Bool
waits id t [] = false
waits id t (w ∷ ws) = if is_watcher id t w then true else waits id t ws

-- One goroutine with these arguments is gone.
unfoldable pub retire : Bytes → ℕ → List (Bytes × ℕ) → List (Bytes × ℕ)
retire id t [] = []
retire id t (w ∷ ws) = let rest = retire id t ws in if is_watcher id t w then ws else w ∷ rest

-- `share` and `start` are the two critical sections of `CreateWithID`; `cleanup` is the step of a
-- goroutine whose terminal has ended.
pub data Op : Type 0 where
  put : Bytes → Bytes → ℕ → ℕ → Op
  share : Bytes → Bytes → Op
  start : Bytes → Bytes → ℕ → Bytes → ℕ → Op
  drop_id : Bytes → Op
  finish : ℕ → Op
  cleanup : Bytes → ℕ → Op

unfoldable pub share_found : World → Bytes → Option Entry → World
share_found w id none = w
share_found w id (some e) = record w {
  registry = alias w.registry id e;
  watchers = (id, e.session) ∷ w.watchers;
}

unfoldable pub apply : World → Op → World
unfolding share_found
apply w (put id cmd now term) = record w {
  registry = (add w.registry id cmd now term).0;
  watchers = (id, term) ∷ w.watchers;
}
apply w (share id src) = share_found w id (reusable w.ended w.registry src)
apply w (start id cmd now src sess) = record w {
  registry = register w.registry id cmd now src sess;
  watchers = (id, sess) ∷ w.watchers;
}
apply w (drop_id id) = record w { registry = (remove w.registry id).0 }
apply w (finish t) = record w { ended = λ u. if t == u then true else w.ended u }
apply w (cleanup id t) =
    if waits id t w.watchers && w.ended t
    then record w { registry = forget w.registry id t; watchers = retire id t w.watchers }
    else w

unfoldable pub run : World → List Op → World
run w [] = w
run w (op ∷ ops) = run (apply w op) ops

abbrev pub start_world : World
start_world = record { registry = new; ended = λ t. false; watchers = [] }

-- Each entry's own cleanup is waiting.
pub record Watched (w : World) : Type 0 where
  pub waiting :
      (id : Bytes) (e : Entry)
      → lookup id w.registry.entries ≡ some e
      → waits id e.session w.watchers ≡ true

waits-retire :
    (id j : Bytes) (t u : ℕ) (ws : List (Bytes × ℕ))
    → (equal id j && t == u) ≡ false
    → waits j u ws ≡ true
    → waits j u (retire id t ws) ≡ true
unfolding waits retire
waits-retire id j t u [] ne h = h
waits-retire id j t u ((i, v) ∷ ws) ne h =
    ground (arith, equal_iff i id, equal_iff i j, equal_iff id j, waits-retire id j t u ws ne)

set-Watched :
    {w : World} (id : Bytes) (e : Entry) (m : Map Bytes)
    → Watched w
    → Watched (record w {
      registry = record { entries = set id e w.registry.entries; source_to_id = m };
      watchers = (id, e.session) ∷ w.watchers;
    })
unfolding waits
set-Watched {w} id e m h = record {
  waiting =
      λ j x at. ground (arith, lookup-set id j e w.registry.entries, h.waiting j x, equal_iff id j);
}

delete_entry-Watched :
    {w : World} (id : Bytes) (e : Entry)
    → Watched w
    → Watched (record w { registry = delete_entry w.registry id e })
delete_entry-Watched {w} id e h = record {
  waiting = λ j x at. ground (arith, lookup-delete_entry w.registry id j e, h.waiting j x);
}

-- An entry that a cleanup leaves is not the one it was for.
forget_found-kept :
    (r : Registry) (id j : Bytes) (t : ℕ) (x : Entry) (o : Option Entry)
    → lookup id r.entries ≡ o
    → lookup j (forget_found r id t o).entries ≡ some x
    → ((equal id j && t == x.session) ≡ false) × (lookup j r.entries ≡ some x)
unfolding forget_found
forget_found-kept r id j t x none at found = ground (arith, equal_iff id j)
forget_found-kept r id j t x (some e) at found =
    ground (arith, equal_iff id j, lookup-delete_entry r id j e)

cleanup-Watched :
    (w : World) (id : Bytes) (t : ℕ) (b : Bool)
    → Watched w
    → Watched (
        if b
        then record w { registry = forget w.registry id t; watchers = retire id t w.watchers }
        else w)
unfolding forget
cleanup-Watched w id t false h = h
cleanup-Watched w id t true h = record {
  waiting = λ j x at.
      let kept = forget_found-kept w.registry id j t x (lookup id w.registry.entries) refl at in
      waits-retire id j t x.session w.watchers kept.0 (h.waiting j x kept.1);
}

share-Watched :
    (w : World) (id : Bytes) (o : Option Entry) → Watched w → Watched (share_found w id o)
unfolding share_found alias
share-Watched w id none h = h
share-Watched w id (some e) h =
    set-Watched id (new_entry id e.info.cmd e.info.created e.session []) w.registry.source_to_id h

remove-Watched :
    (w : World) (id : Bytes) (o : Option Entry)
    → Watched w
    → Watched (record w { registry = (remove_found w.registry id o).0 })
unfolding remove_found
remove-Watched w id none h = record { waiting = h.waiting }
remove-Watched w id (some e) h = delete_entry-Watched id e h

apply-Watched : (w : World) (op : Op) → Watched w → Watched (apply w op)
unfolding apply add register remove
apply-Watched w (put id cmd now term) h =
    set-Watched id (new_entry id cmd now term []) w.registry.source_to_id h
apply-Watched w (share id src) h = share-Watched w id (reusable w.ended w.registry src) h
apply-Watched w (start id cmd now src sess) h = set-Watched id (new_entry id cmd now sess src) _ h
apply-Watched w (drop_id id) h = remove-Watched w id (lookup id w.registry.entries) h
apply-Watched w (finish t) h = record { waiting = h.waiting }
apply-Watched w (cleanup id t) h = cleanup-Watched w id t (waits id t w.watchers && w.ended t) h

keeps-Watched : (ops : List Op) (w : World) → Watched w → Watched (run w ops)
unfolding run
keeps-Watched [] w h = h
keeps-Watched (op ∷ ops) w h = keeps-Watched ops (apply w op) (apply-Watched w op h)

-- No entry leaks: in whatever order sessions are added, shared, started, removed, end and are
-- cleaned up, every entry's own cleanup still waits for the entry's terminal.
pub run-Watched :
    (ops : List Op) (id : Bytes) (e : Entry)
    → lookup id (run start_world ops).registry.entries ≡ some e
    → waits id e.session (run start_world ops).watchers ≡ true
unfolding lookup
run-Watched ops id e at =
    let empty : Watched start_world = record { waiting = λ j x gone. ground arith } in
    (keeps-Watched ops start_world empty).waiting id e at
