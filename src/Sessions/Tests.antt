-- ===== src/Sessions/Tests.antt =====
-- The registry at concrete inputs.
use scomp_agent.Common.{
  equal, lookup, erase, ℕ, ◌≡◌, refl, Bool, true, Option, some, List, [], ◌∷◌, arith, ◌==◌, Bytes,
  text,
}
use scomp_agent.Sessions.{
  Registry, new_entry, get, forget, source_key, create_with_id, reusable, live_source, live_entry,
  still_live, register, add,
}
use scomp_agent.Sessions.Attach.{attach, attach_found, finish_start}
use scomp_agent.Sessions.Attach.Again.{attach_again}
use scomp_agent.Sessions.Lookup.{get-forget}
use scomp_agent.Sessions.Create.{Created, create_with_id-Created}
use scomp_agent.Sessions.Watch.{
  World, Op, put, share, start, finish, cleanup, share_found, run, apply, start_world, waits,
  run-Watched,
}

-- Terminal 1 has ended.
abbrev first_ended : ℕ → Bool
first_ended t = t == 1

abbrev attach_work : List Bytes
attach_work = text "attach-session" ∷ text "-t" ∷ text "=work" ∷ []

-- `a` was given to terminal 2 while the cleanup of terminal 1 waits.
abbrev reactivated : Registry
reactivated = record {
  entries = (text "a", new_entry (text "a") (text "tmux") 5 2 (text "tmux:work")) ∷ [];
  source_to_id = (text "tmux:work", text "a") ∷ [];
}

source_key-work : source_key (text "/usr/bin/tmux") attach_work ≡ text "tmux:work"
unfolding source_key equal
source_key-work = refl

get-reactivated : get first_ended reactivated (text "a") ≡ some 2
unfolding get lookup equal
get-reactivated = refl

get-forget_example :
    get first_ended (forget reactivated (text "a") 1) (text "a")
    ≡ get first_ended reactivated (text "a")
get-forget_example = get-forget first_ended reactivated (text "a") 1 (text "a") refl

create_with_id-Created_example :
    Created first_ended reactivated
      (text "b")
      (create_with_id first_ended reactivated (text "b") (text "tmux") attach_work 6 (some 3))
create_with_id-Created_example =
    create_with_id-Created first_ended reactivated (text "b") (text "tmux") attach_work 6 (some 3)

-- `a` is attached to `work` and then `b` too; a cleanup and another session come between.
abbrev others : List Op
others = finish 7 ∷ put (text "c") (text "sh") 5 4 ∷ cleanup (text "a") 7 ∷ []

abbrev first_call : World × Option ℕ
first_call = attach start_world [] (text "a") (text "tmux") attach_work 5 (some 2)

attach_again_example :
    let later = run first_call.0 others in
    ((attach later [] (text "b") (text "tmux") attach_work 6 (some 3)).1 ≡ some 2)
    × ((attach later [] (text "b") (text "tmux") attach_work 6 (some 3)).0
        ≡ apply later (share (text "b") (source_key (text "tmux") attach_work)))
unfolding attach attach_found finish_start source_key reusable live_source live_entry lookup equal
    run apply register
attach_again_example =
    attach_again start_world [] (text "a") (text "tmux") attach_work 5 (some 2) 2 (text "a") others
      [] (text "b") (text "tmux") attach_work 6 (some 3) (λ e. ground arith) refl refl refl refl
      (refl, (refl, (tt, tt)))

-- Two calls that both look before either registers each start a terminal.
attach_race :
    (attach start_world
      (start (text "a") (text "tmux") 5 (text "tmux:work") 2 ∷ [])
      (text "b")
      (text "tmux")
      attach_work
      6
      (some 3)).1
    ≡ some 3
unfolding attach attach_found finish_start source_key reusable live_source live_entry lookup equal
    run apply
attach_race = refl

-- An identifier that is given to another session takes the first one's terminal along.
attach_moved :
    (attach
      (attach first_call.0 []
        (text "a")
        (text "screen")
        (text "-x" ∷ text "play" ∷ [])
        6
        (some 3)).0
      []
      (text "b")
      (text "tmux")
      attach_work
      7
      (some 4)).1
    ≡ some 3
unfolding attach attach_found finish_start source_key reusable live_source live_entry still_live
    lookup equal erase run apply register share_found
attach_moved = refl

abbrev reuse_script : List Op
reuse_script =
    put (text "a") (text "sh") 5 1
    ∷ finish 1
    ∷ put (text "a") (text "sh") 6 2
    ∷ cleanup (text "a") 1
    ∷ []

run-Watched_example : waits (text "a") 2 (run start_world reuse_script).watchers ≡ true
unfolding run apply add forget waits lookup erase equal
run-Watched_example =
    run-Watched reuse_script (text "a") (new_entry (text "a") (text "sh") 6 2 []) refl
