-- ===== src/Stream/Fanout.antt =====
-- What one step does to one channel.
use scomp_agent.Common.{
  ℕ, ◌+◌, ◌≤◌, ◌<◌, ◌≡◌, refl, sym, ◌∙◌, ◌⊎◌, inl, inr, Bool, true, ◌&&◌, Option, none, some, List,
  [], ◌∷◌, ◌++◌, append_assoc, arith, ◌==◌, if◌then◌else◌, ltb→lt, ltb→le, ==_iff, Bool-cases,
  Bytes, length,
}
use scomp_agent.Stream.{
  Event, snapshot_for, Chan, Stream, update, has_room, enqueue, offer, broadcast, remove, snapshot,
  request_snapshot, take_event, receive, output, emit,
}

unfoldable pub lookup : ℕ → List (ℕ × Bool) → Option Bool
lookup c [] = none
lookup c ((d, callback) ∷ subs) = if d == c then some callback else lookup c subs

-- No channel is subscribed twice.
abbrev pub IsMap : List (ℕ × Bool) → Type 0
IsMap [] = Unit
IsMap ((c, _) ∷ subs) = (lookup c subs ≡ none) × IsMap subs

pub lookup-remove :
    (c d : ℕ) (subs : List (ℕ × Bool))
    → lookup d (remove c subs) ≡ (if c == d then none else lookup d subs)
unfolding lookup remove
lookup-remove c d [] = ground arith
lookup-remove c d ((i, callback) ∷ subs) = ground (arith, lookup-remove c d subs)

pub remove-IsMap : (c : ℕ) (subs : List (ℕ × Bool)) → IsMap subs → IsMap (remove c subs)
unfolding remove
remove-IsMap c [] m = tt
remove-IsMap c ((i, callback) ∷ subs) m =
    ground (arith, lookup-remove c i subs, remove-IsMap c subs m.1)

abbrev pub offered : Option Bool → Event → Chan → Chan
offered none e ch = ch
offered (some callback) e ch = offer e callback ch

-- A broadcast offers its event once to each subscribed channel, and touches no other.
pub broadcast_lem :
    (e : Event) (subs : List (ℕ × Bool)) (f : ℕ → Chan) (c : ℕ)
    → IsMap subs
    → broadcast e subs f c ≡ offered (lookup c subs) e (f c)
unfolding broadcast lookup
broadcast_lem e [] f c m = refl
broadcast_lem e ((d, callback) ∷ subs) f c m =
    broadcast_lem e subs (update f d (offer e callback (f d))) c m.1 ∙ elim (Bool-cases (d == c)) [
      | inl same ↦
          let at : d ≡ c = (==_iff d c).0 same in
          let gone : lookup c subs ≡ none = rw at at m.0 in rw (same, gone, at)
      | inr other ↦ rw other
    ]

pub request_snapshot_keeps :
    (s : Stream) (c : ℕ) (client : Bytes)
    → ((request_snapshot s c client).1.ring ≡ s.ring)
      × ((request_snapshot s c client).1.subs ≡ s.subs)
unfolding request_snapshot
request_snapshot_keeps s c client = ground arith

-- A snapshot request puts one event behind the others of the channel, and tells so by its result;
-- without room it changes nothing.
pub request_snapshot_lem :
    (s : Stream) (c d : ℕ) (client : Bytes)
    → ((request_snapshot s c client).0 ≡ has_room (s.chan c))
      × ((request_snapshot s c client).1.chan d ≡ (
          if c == d && has_room (s.chan c)
          then enqueue (snapshot_for client (snapshot s)) (s.chan d)
          else s.chan d))
unfolding request_snapshot
request_snapshot_lem s c d client = elim (Bool-cases (c == d)) [
  | inl same ↦ let at : c ≡ d = (==_iff c d).0 same in rw at (ground arith)
  | inr other ↦ ground arith
]

-- All events that a channel has accepted, in order.
abbrev pub delivered : Chan → List Event
delivered ch = ch.received ++ ch.waiting

pub delivered-enqueue : (e : Event) (ch : Chan) → delivered (enqueue e ch) ≡ delivered ch ++ e ∷ []
delivered-enqueue e ch = sym (append_assoc ch.received ch.waiting (e ∷ []))

delivered-take_event :
    (ch : Chan) (w : List Event) → ch.waiting ≡ w → delivered (take_event ch w) ≡ delivered ch
unfolding take_event
delivered-take_event ch [] h = refl
delivered-take_event ch (e ∷ rest) h = rw h (append_assoc ch.received (e ∷ []) rest)

-- Reading moves an event from the channel to its reader.
pub delivered-receive :
    (s : Stream) (d c : ℕ) → delivered ((receive s d).chan c) ≡ delivered (s.chan c)
unfolding receive
delivered-receive s d c = elim (Bool-cases (d == c)) [
  | inl same ↦
      rw same
        (let at : d ≡ c = (==_iff d c).0 same in rw (← at) (delivered-take_event (s.chan d) _ refl))
  | inr other ↦ rw other
]

take_event-overflows : (ch : Chan) (w : List Event) → (take_event ch w).overflows ≡ ch.overflows
unfolding take_event
take_event-overflows ch [] = refl
take_event-overflows ch (e ∷ rest) = refl

pub overflows-receive :
    (s : Stream) (d c : ℕ) → ((receive s d).chan c).overflows ≡ (s.chan c).overflows
unfolding receive
overflows-receive s d c = elim (Bool-cases (d == c)) [
  | inl same ↦
      rw same
        (let at : d ≡ c = (==_iff d c).0 same in rw (← at) (take_event-overflows (s.chan d) _))
  | inr other ↦ rw other
]

pub broadcast_to :
    (e : Event) (subs : List (ℕ × Bool)) (f : ℕ → Chan) (c : ℕ) (callback : Bool)
    → IsMap subs
    → lookup c subs ≡ some callback
    → has_room (f c) ≡ true
    → let ch = broadcast e subs f c in
      (delivered ch ≡ delivered (f c) ++ e ∷ []) × (ch.overflows ≡ (f c).overflows)
unfolding offer
broadcast_to e subs f c callback m on room =
    let at : broadcast e subs f c ≡ offered (lookup c subs) e (f c) = broadcast_lem e subs f c m in
    rw (at, on, room) (delivered-enqueue e (f c), refl)

-- `Emit` leaves a subscriber no silent gap: if its channel has room, the bytes are put behind the
-- events it has accepted; if not, the channel stays as it is and its overflow callback, where
-- there is one, runs once.
pub emit_no_gap :
    (s : Stream) (p : Bytes) (c : ℕ) (callback : Bool)
    → IsMap s.subs
    → lookup c s.subs ≡ some callback
    → let was = s.chan c in
      let ch = (emit s p).chan c in
      ((length was.waiting < was.cap)
        × (delivered ch ≡ delivered was ++ output p ∷ [])
        × (ch.overflows ≡ was.overflows))
      ⊎ ((was.cap ≤ length was.waiting)
          × (delivered ch ≡ delivered was)
          × (ch.overflows ≡ (if callback then was.overflows + 1 else was.overflows)))
unfolding emit offer
emit_no_gap s p c callback m on =
    let f = s.chan in
    let at : broadcast (output p) s.subs f c ≡ offered (lookup c s.subs) (output p) (f c) =
      broadcast_lem (output p) s.subs f c m in
    elim (Bool-cases (has_room (f c))) [
      | inl room ↦
          let sent : (delivered (broadcast (output p) s.subs f c)
                ≡ delivered (f c) ++ output p ∷ [])
              × ((broadcast (output p) s.subs f c).overflows ≡ (f c).overflows) =
            broadcast_to (output p) s.subs f c callback m on room in
          inl (ltb→lt _ _ room, (sent).0, (sent).1)
      | inr full ↦
          inr (ltb→le _ _ full, rw (at, on, full) (ground arith), rw (at, on, full) (ground arith))
    ]
