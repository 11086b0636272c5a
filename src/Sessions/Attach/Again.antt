-- ===== src/Sessions/Attach/Again.antt =====
-- A source keeps its terminal.
use scomp_agent.Common.{
  lookup, ℕ, ◌≡◌, refl, ap, ◌∙◌, ◌≢◌, false, Option, none, some, List, [], arith, ◌==◌, Bytes,
  length,
}
use scomp_agent.Sessions.{
  reuse_or_start, start_new, create_with_id, Entry, source_key, reusable, live_source, live_entry,
  still_live, alias, register,
}
use scomp_agent.Sessions.Create.{
  ServedBy, alias-ServedBy, register-ServedBy, nonempty, still_live_lem,
}
use scomp_agent.Sessions.Watch.{World, Op, share, share_found, apply, run}
use scomp_agent.Sessions.Attach.{finish_start, attach_found, attach}
use scomp_agent.Sessions.Attach.Keeps.{Holds, AllSpare, run-Holds}
use mathlib.Core.Path.{subst}

module _ (src owner : Bytes) (sess : ℕ) where
  -- What serves the source is the entry of the identifier that it is known by.
  ServedBy-Holds :
      (w : World)
      → lookup src w.registry.source_to_id ≡ some owner
      → w.ended sess ≡ false
      → ServedBy w.ended w.registry src sess
      → Holds src owner sess w
  unfolding live_source live_entry
  ServedBy-Holds w known up (e, live, same) =
      let at : still_live w.ended (lookup owner w.registry.entries) ≡ some e = rw known at live in
      record {
        known = known;
        entry = e;
        found = (still_live_lem w.ended (lookup owner w.registry.entries) e at).0;
        same = same;
        up = up;
      }

  reusable-Holds :
      (w : World)
      → (length src == 0) ≡ false
      → Holds src owner sess w
      → (e : Entry) × (reusable w.ended w.registry src ≡ some e) × (e.session ≡ sess)
  unfolding reusable live_source live_entry still_live
  reusable-Holds w keyed h =
      let down : w.ended h.entry.session ≡ false = ap w.ended h.same ∙ h.up in
      (h.entry, rw (keyed, h.known, h.found, down) refl, h.same)

  attach_found-ServedBy :
      (w : World) (between : List Op) (id cmd : Bytes) (now : ℕ) (started : Option ℕ)
      (o : Option Entry)
      → (length src == 0) ≡ false
      → reusable w.ended w.registry src ≡ o
      → (attach_found w between id cmd now src started o).1 ≡ some sess
      → (attach_found w between id cmd now src started o).0.ended sess ≡ false
      → ServedBy
          (attach_found w between id cmd now src started o).0.ended
          (attach_found w between id cmd now src started o).0.registry
          src
          sess
  unfolding attach_found finish_start apply share_found reusable
  attach_found-ServedBy w between id cmd now started (some e) keyed at out up =
      let same : e.session ≡ sess = ground (arith, out) in
      let live : live_source w.ended w.registry src ≡ some e = rw keyed at at in
      rw at (
        subst (ServedBy w.ended (alias w.registry id e) src) same
          (alias-ServedBy w.ended w.registry id src e live))
  attach_found-ServedBy w between id cmd now none none keyed at out up = ground arith
  attach_found-ServedBy w between id cmd now (some t) none keyed at out up =
      let same : t ≡ sess = ground (arith, out) in
      subst
        (ServedBy (run w between).ended (register (run w between).registry id cmd now src t) src)
        same
        (register-ServedBy (run w between).ended (run w between).registry id cmd now src t keyed
          (ap (run w between).ended same ∙ up))

  attach_found_again :
      (w : World) (between : List Op) (id cmd : Bytes) (now : ℕ) (started : Option ℕ)
      (o : Option Entry)
      → ((e : Entry) × (o ≡ some e) × (e.session ≡ sess))
      → ((attach_found w between id cmd now src started o).1 ≡ some sess)
        × ((attach_found w between id cmd now src started o).0 ≡ apply w (share id src))
  unfolding attach_found
  attach_found_again w between id cmd now started (some x) (e, is, same) =
      (ground (arith, is, same), refl)
  attach_found_again w between id cmd now started none (e, is, same) = absurd (ground (arith, is))

attach_found_alone :
    (w : World) (id cmd : Bytes) (now : ℕ) (src : Bytes) (started : Option ℕ) (o : Option Entry)
    → reusable w.ended w.registry src ≡ o
    → let called = attach_found w [] id cmd now src started o in
      (called.0.registry, called.1) ≡ reuse_or_start w.registry id cmd now src started o
unfolding attach_found finish_start reuse_or_start start_new apply share_found run
attach_found_alone w id cmd now src started (some e) at = rw at refl
attach_found_alone w id cmd now src none none at = refl
attach_found_alone w id cmd now src (some t) none at = refl

-- Without steps of others in between, the two critical sections make `create_with_id`.
attach_alone :
    (w : World) (id cmd : Bytes) (args : List Bytes) (now : ℕ) (started : Option ℕ)
    → let called = attach w [] id cmd args now started in
      (called.0.registry, called.1) ≡ create_with_id w.ended w.registry id cmd args now started
unfolding attach create_with_id
attach_alone w id cmd args now started =
    attach_found_alone w id cmd now (source_key cmd args) started _ refl

-- A tmux or screen session keeps its terminal: say that one call returned `sess` for it, whatever
-- others did between the call's critical sections, that `sess` runs, and that the registry knows
-- the source by the identifier `owner`. Then another call for the same source, under whatever
-- identifier, returns `sess` too and starts nothing, behind any further steps that do not give
-- `owner` away or remove it, do not register another terminal for the source, as the second half of
-- a call would that looked before the first one had registered `sess`, and do not end `sess`.
pub attach_again :
    (w : World) (between : List Op) (id cmd : Bytes) (args : List Bytes) (now : ℕ)
    (started : Option ℕ) (sess : ℕ) (owner : Bytes) (ops between' : List Op) (id' cmd' : Bytes)
    (args' : List Bytes) (now' : ℕ) (started' : Option ℕ)
    → source_key cmd args ≢ []
    → source_key cmd' args' ≡ source_key cmd args
    → (attach w between id cmd args now started).1 ≡ some sess
    → (attach w between id cmd args now started).0.ended sess ≡ false
    → lookup
        (source_key cmd args)
        (attach w between id cmd args now started).0.registry.source_to_id
      ≡ some owner
    → AllSpare (source_key cmd args) owner sess ops
    → let later = run (attach w between id cmd args now started).0 ops in
      ((attach later between' id' cmd' args' now' started').1 ≡ some sess)
      × ((attach later between' id' cmd' args' now' started').0
          ≡ apply later (share id' (source_key cmd args)))
unfolding attach
attach_again w between id cmd args now started sess owner ops between' id' cmd' args' now' started'
      keyed same out up known others =
    let src = source_key cmd args in
    let full = nonempty w.ended src keyed in
    let served =
      attach_found-ServedBy src owner sess w between id cmd now started
        (reusable w.ended w.registry src) full refl out up in
    let first =
      (attach_found w between id cmd now src started (reusable w.ended w.registry src)).0 in
    let h =
      run-Holds src owner sess ops first others
        (ServedBy-Holds src owner sess first known up served) in
    let later = run first ops in
    rw same (
      attach_found_again src owner sess later between' id' cmd' now' started'
        (reusable later.ended later.registry src) (reusable-Holds src owner sess later full h))
