-- ===== src/Agent/Catalog/Delivery/Runs.antt =====
-- A catalog and the main loop of a connection, with their steps in any order.
use scomp_agent.Common.{
  equal, ℕ, ◌+◌, ◌≤◌, ◌≡◌, refl, inl, inr, Bool, List, [], ◌∷◌, Bool-cases, Bytes, length, Map,
}
use scomp_agent.Protocol.{SessionMode, ServerMsg}
use scomp_agent.Agent.Handler.{LazySession, State, Outside, handle, finish_session}
use scomp_agent.Agent.Handler.View.{handle_available, finish_session_available}
use scomp_agent.Agent.Catalog.{Change, added, removed, keys_of, scan}
use scomp_agent.Agent.Catalog.Delivery.{capacity, offer_all, on_change, on_changes}
use scomp_agent.Agent.Catalog.Delivery.Entries.{IsCatalog}
use scomp_agent.Agent.Catalog.Delivery.Follows.{Agrees, IsFresh, on_changes-scan}

-- The catalog's entries, the changes that wait in the loop's channel, and the loop's state.
pub record Both : Type 0 where
  pub entries : Map LazySession
  pub waiting : List Change
  pub loop : State

on_change_same :
    (change : Change) (s t : State)
    → s.available ≡ t.available
    → (on_change change s).available ≡ (on_change change t).available
unfolding on_change
on_change_same (added ls) s t h = rw h refl
on_change_same (removed id) s t h = elim (Bool-cases (equal id [])) [
  | inl empty ↦ rw empty h
  | inr full ↦ rw (full, h) refl
]

on_changes_same :
    (changes : List Change) (s t : State)
    → s.available ≡ t.available
    → (on_changes changes s).available ≡ (on_changes changes t).available
unfolding on_changes
on_changes_same [] s t h = h
on_changes_same (change ∷ changes) s t h =
    on_changes_same changes (on_change change s) (on_change change t) (on_change_same change s t h)

module _ (out : Outside) (mode : SessionMode) where
  -- What can happen next: a scan, the handling of a message from the relay, the end of a session's
  -- forwarder, or the taking of a change.
  -- The identifiers that a scan draws are not empty and not in use, and its changes find room.
  pub data Step : Both → Both → Type 0 where
    scanned :
        (b : Both) (new_id : ℕ → Bytes) (now : ℕ) (active : Bytes → Bool) (tmux screen : List Bytes)
        → IsFresh new_id now mode 0 (b.entries, []) (keys_of tmux screen)
        → length b.waiting + length (scan new_id now mode active b.entries tmux screen).changes
          ≤ capacity
        → Step b (record {
          entries = (scan new_id now mode active b.entries tmux screen).entries;
          waiting = offer_all (scan new_id now mode active b.entries tmux screen).changes b.waiting;
          loop = b.loop;
        })
    handled : (b : Both) (msg : ServerMsg) → Step b (record b { loop = handle out msg b.loop })
    ended :
        (b : Both) (id : Bytes) (fw : ℕ)
        → Step b (record b { loop = finish_session out b.loop id fw })
    taken :
        (entries : Map LazySession) (change : Change) (waiting : List Change) (s : State)
        → Step
            (record { entries = entries; waiting = change ∷ waiting; loop = s })
            (record { entries = entries; waiting = waiting; loop = on_change change s })

  pub data Steps : Both → Both → Type 0 where
    done : (b : Both) → Steps b b
    step : (a b c : Both) → Step a b → Steps b c → Steps a c

  -- The loop's view agrees with the catalog once the waiting changes are taken.
  abbrev pub IsInStep : Both → Type 0
  IsInStep b = IsCatalog b.entries × Agrees (on_changes b.waiting b.loop).available b.entries

  Step-IsInStep : (a b : Both) → Step a b → IsInStep a → IsInStep b
  unfolding on_changes
  Step-IsInStep _ _ (scanned b new_id now active tmux screen fresh room) (good, agrees) =
      on_changes-scan new_id now mode active b.entries tmux screen b.waiting b.loop good fresh
        agrees room
  Step-IsInStep _ _ (handled b msg) (good, agrees) =
      let same =
        on_changes_same b.waiting (handle out msg b.loop) b.loop
          (handle_available out msg b.loop) in
      (good, rw same agrees)
  Step-IsInStep _ _ (ended b id fw) (good, agrees) =
      let same =
        on_changes_same b.waiting (finish_session out b.loop id fw) b.loop
          (finish_session_available out b.loop id fw) in
      (good, rw same agrees)
  Step-IsInStep _ _ (taken entries change waiting s) h = h

  -- In any order of scans, messages, sessions that end and changes that are taken, the main loop stays
  -- in step with the catalog, in which every entry stands under its own name with an identifier of its
  -- own:
  -- if its view agrees with the catalog once the changes that wait for it are taken, it does so after
  -- every run in which the scans draw fresh identifiers and find room for their changes.
  pub Steps-IsInStep : (a b : Both) → Steps a b → IsInStep a → IsInStep b
  Steps-IsInStep _ _ (done b) h = h
  Steps-IsInStep _ _ (step a b c now rest) h = Steps-IsInStep b c rest (Step-IsInStep a b now h)
