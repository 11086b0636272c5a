-- ===== src/Stream/Tests.antt =====
-- A stream with one subscriber, at concrete inputs.
use scomp_agent.Common.{
  ◌+◌, ◌≤◌, ◌<◌, ◌≡◌, refl, ◌⊎◌, true, false, List, [], ◌∷◌, ◌++◌, arith, length, text,
}
use scomp_agent.Ring.Contents.{new-IsValid, size-new, contents-new}
use scomp_agent.Stream.{
  output, snapshot_for, Chan, Stream, new, subscribe, emit, request_snapshot, offer, broadcast,
  emit_reset, remove, unsubscribe, receive,
}
use scomp_agent.Stream.Fanout.{delivered, lookup, emit_no_gap}
use scomp_agent.Stream.Order.{
  Op, put, redraw, attach, join, leave, read, run, owed, expected, Ready, AllKeepUp, delivered-run,
  apply,
}

abbrev empty_chan : Chan
empty_chan = record { cap = 2; received = []; waiting = []; overflows = 0 }

-- A ring of 4 bytes; channel 1 is subscribed.
abbrev watched : Stream
watched = subscribe (new 4 (λ _. empty_chan)) 1 true

abbrev script : List Op
script =
    put (1 ∷ 2 ∷ 3 ∷ [])
    ∷ join 2 false
    ∷ read 1
    ∷ put (4 ∷ 5 ∷ [])
    ∷ attach 1 (text "c")
    ∷ leave 2
    ∷ read 1
    ∷ redraw (6 ∷ [])
    ∷ []

watched-Ready : Ready 1 4 [] watched
unfolding subscribe new remove lookup
watched-Ready = record {
  pos = omega arith;
  sized = size-new 4;
  valid = new-IsValid 4;
  holds = contents-new 4;
  map = (refl, tt);
  subscribed = (true, refl);
}

script-AllKeepUp : AllKeepUp 1 watched script
unfolding subscribe new apply emit emit_reset request_snapshot receive broadcast offer remove
    unsubscribe
script-AllKeepUp = (refl, (tt, (tt, (refl, ((λ _. refl), ((λ e. omega arith), (tt, (refl, tt))))))))

delivered-run_example :
    (delivered ((run watched script).chan 1) ≡ delivered (watched.chan 1) ++ expected 1 4 [] script)
    × (((run watched script).chan 1).overflows ≡ (watched.chan 1).overflows)
delivered-run_example = delivered-run 1 script watched-Ready script-AllKeepUp

expected-script :
    expected 1 4 [] script
    ≡ output (1 ∷ 2 ∷ 3 ∷ [])
      ∷ output (4 ∷ 5 ∷ [])
      ∷ snapshot_for (text "c") (2 ∷ 3 ∷ 4 ∷ 5 ∷ [])
      ∷ output (6 ∷ [])
      ∷ []
unfolding expected owed
expected-script = refl

emit_no_gap_example :
    let was = watched.chan 1 in
    let ch = (emit watched (7 ∷ [])).chan 1 in
    ((length was.waiting < was.cap)
      × (delivered ch ≡ delivered was ++ output (7 ∷ []) ∷ [])
      × (ch.overflows ≡ was.overflows))
    ⊎ ((was.cap ≤ length was.waiting)
        × (delivered ch ≡ delivered was)
        × (ch.overflows ≡ was.overflows + 1))
unfolding subscribe new remove lookup
emit_no_gap_example = emit_no_gap watched (7 ∷ []) 1 true (refl, tt) refl
