-- ===== src/Stream.antt =====
-- internal/stream/stream.go: the ring of recent output and the fan-out to subscribers. A channel
-- is known by a number. `s.mu` makes each method one step; the copy of the map that `broadcast`
-- iterates over is the list of subscribers at that step.
pub mod Fanout
pub mod Order
mod Tests
use scomp_agent.Common.{
  ℕ, ◌+◌, ◌-◌, Bool, true, false, not, List, [], ◌∷◌, ◌++◌, ltb, ◌==◌, if◌then◌else◌, Bytes, length,
}
use scomp_agent.Ring
use scomp_agent.Ring.{Buffer}
use scomp_agent.Ring.Replay.{bytes_of}

-- `Event`, with its `Snapshot` flag as the constructor. A nil slice is the empty one.
pub data Event : Type 0 where
  output : Bytes → Event
  snapshot_for : Bytes → Bytes → Event

-- A buffered channel: what its reader has taken, what waits in it, and how often the overflow
-- callback that it was subscribed with has run.
pub record Chan : Type 0 where
  pub cap : ℕ
  pub received : List Event
  pub waiting : List Event
  pub overflows : ℕ

-- `subs` maps a channel to its callback; the flag tells whether that is not nil.
pub record Stream : Type 0 where
  pub ring : Buffer
  pub subs : List (ℕ × Bool)
  pub chan : ℕ → Chan

abbrev pub update : (ℕ → Chan) → ℕ → Chan → ℕ → Chan
update f c v d = if c == d then v else f d

abbrev pub has_room : Chan → Bool
has_room ch = ltb (length ch.waiting) ch.cap

abbrev pub enqueue : Event → Chan → Chan
enqueue e ch = record ch { waiting = ch.waiting ++ e ∷ [] }

-- The `select` of `broadcast` for one subscriber.
unfoldable pub offer : Event → Bool → Chan → Chan
offer e callback ch =
    if has_room ch
    then enqueue e ch
    else if callback
    then record ch { overflows = ch.overflows + 1 }
    else ch

unfoldable pub broadcast : Event → List (ℕ × Bool) → (ℕ → Chan) → ℕ → Chan
broadcast e [] f = f
broadcast e ((c, callback) ∷ subs) f = broadcast e subs (update f c (offer e callback (f c)))

unfoldable pub emit : Stream → Bytes → Stream
emit s p = record s { ring = Ring.write s.ring p; chan = broadcast (output p) s.subs s.chan }

unfoldable pub emit_reset : Stream → Bytes → Stream
emit_reset s p = record s {
  ring = Ring.write (Ring.reset s.ring) p;
  chan = broadcast (output p) s.subs s.chan;
}

-- `delete(s.subs, ch)`
unfoldable pub remove : ℕ → List (ℕ × Bool) → List (ℕ × Bool)
remove c [] = []
remove c ((d, callback) ∷ subs) = if d == c then remove c subs else (d, callback) ∷ remove c subs

pub subscribe : Stream → ℕ → Bool → Stream
unfolding remove
subscribe s c callback = record s { subs = (c, callback) ∷ remove c s.subs }

pub unsubscribe : Stream → ℕ → Stream
unfolding remove
unsubscribe s c = record s { subs = remove c s.subs }

unfoldable pub snapshot : Stream → Bytes
snapshot s = bytes_of (Ring.snapshot s.ring)

pub request_snapshot : Stream → ℕ → Bytes → Bool × Stream
unfolding snapshot
request_snapshot s c client =
    if has_room (s.chan c)
    then (
      true,
      record s { chan = update s.chan c (enqueue (snapshot_for client (snapshot s)) (s.chan c)) },
    )
    else (false, s)

unfoldable pub new : ℕ → (ℕ → Chan) → Stream
new size chans = record { ring = Ring.new size; subs = []; chan = chans }

-- The reader of channel `c` takes the next event, if one waits.
take_event : Chan → List Event → Chan
take_event ch [] = ch
take_event ch (e ∷ rest) = record ch { received = ch.received ++ e ∷ []; waiting = rest }

pub receive : Stream → ℕ → Stream
unfolding take_event
receive s c = record s { chan = update s.chan c (take_event (s.chan c) (s.chan c).waiting) }
