-- ===== src/Stream/Order.antt =====
-- The order of a subscriber's events: snapshots stand at exact points of the output.
use scomp_agent.Common.{
  ℕ, ◌<◌, ◌≡◌, refl, sym, ap, ◌∙◌, ◌≢◌, inl, inr, Bool, true, some, List, [], ◌∷◌, ◌++◌, append-nil,
  append_assoc, arith, ◌==◌, if◌then◌else◌, ==_iff, Bool-cases, Bytes, length, keep_last,
  keep_last-keep_last,
}
use scomp_agent.Ring
use mathlib.Core.Path.{subst}
use scomp_agent.Ring.{Buffer}
use scomp_agent.Ring.Contents.{
  IsValid, contents, write-IsValid, reset-IsValid, size-write, size-reset, contents-reset,
}
use scomp_agent.Ring.Keeps.{contents-write}
use scomp_agent.Ring.Replay.{snapshot-contents}
use scomp_agent.Stream.Fanout.{
  lookup, IsMap, lookup-remove, remove-IsMap, request_snapshot_keeps, delivered, delivered-receive,
  broadcast_to, request_snapshot_lem, delivered-enqueue, overflows-receive,
}
use scomp_agent.Stream.{
  Event, output, snapshot_for, Stream, has_room, emit, emit_reset, subscribe, unsubscribe,
  request_snapshot, receive, enqueue, snapshot,
}

-- The calls of one stream's methods, in the order in which its lock admits them, and the reads of
-- its subscribers' channels.
pub data Op : Type 0 where
  put : Bytes → Op
  redraw : Bytes → Op
  attach : ℕ → Bytes → Op
  join : ℕ → Bool → Op
  leave : ℕ → Op
  read : ℕ → Op

unfoldable pub apply : Stream → Op → Stream
apply s (put p) = emit s p
apply s (redraw p) = emit_reset s p
apply s (attach c client) = (request_snapshot s c client).1
apply s (join c callback) = subscribe s c callback
apply s (leave c) = unsubscribe s c
apply s (read c) = receive s c

unfoldable pub run : Stream → List Op → Stream
run s [] = s
run s (op ∷ ops) = run (apply s op) ops

abbrev pub past_after : Bytes → Op → Bytes
past_after past (put p) = past ++ p
past_after past (redraw p) = p
past_after past _ = past

module _ (c : ℕ) where
  -- The events that one call owes to channel `c`, if `past` is the output since the last reset.
  unfoldable pub owed : ℕ → Bytes → Op → List Event
  owed size past (put p) = output p ∷ []
  owed size past (redraw p) = output p ∷ []
  owed size past (attach d client) =
      if d == c then snapshot_for client (keep_last size past) ∷ [] else []
  owed size past (join d callback) = []
  owed size past (leave d) = []
  owed size past (read d) = []

  -- What the events of channel `c` have to be: each output once and in order, and for each attach
  -- the last `size` bytes of the output before it, since the last reset.
  unfoldable pub expected : ℕ → Bytes → List Op → List Event
  unfolding owed
  expected size past [] = []
  expected size past (op ∷ ops) = owed size past op ++ expected size (past_after past op) ops

  -- The channel has room whenever something is sent to it, and its reader does not leave.
  abbrev pub KeepsUp : Stream → Op → Type 0
  KeepsUp s (put p) = has_room (s.chan c) ≡ true
  KeepsUp s (redraw p) = has_room (s.chan c) ≡ true
  KeepsUp s (attach d client) = d ≡ c → has_room (s.chan c) ≡ true
  KeepsUp s (join d callback) = Unit
  KeepsUp s (leave d) = d ≢ c
  KeepsUp s (read d) = Unit

  abbrev pub AllKeepUp : Stream → List Op → Type 0
  AllKeepUp s [] = Unit
  AllKeepUp s (op ∷ ops) = KeepsUp s op × AllKeepUp (apply s op) ops

  -- The ring holds the end of `past`, and `c` is subscribed.
  pub record Ready (size : ℕ) (past : Bytes) (s : Stream) : Type 0 where
    pub pos : 0 < size
    pub sized : length s.ring.buf ≡ size
    pub valid : IsValid s.ring
    pub holds : contents s.ring ≡ keep_last size past
    pub map : IsMap s.subs
    pub subscribed : (callback : Bool) × (lookup c s.subs ≡ some callback)

  Ready-snapshot :
      {size : ℕ} {past : Bytes} {s : Stream} → Ready size past s → snapshot s ≡ keep_last size past
  unfolding snapshot
  Ready-snapshot {s = s} r = (snapshot-contents r.valid (omega (arith, r.sized, r.pos))).0 ∙ r.holds

  Ready-apply :
      (op : Op) {size : ℕ} {past : Bytes} {s : Stream}
      → Ready size past s
      → KeepsUp s op
      → Ready size (past_after past op) (apply s op)
  unfolding apply emit emit_reset subscribe unsubscribe receive lookup
  Ready-apply (put p) {size} {past} {s} r h = record {
    pos = r.pos;
    sized = size-write s.ring p ∙ r.sized;
    valid = write-IsValid p r.valid;
    holds = contents-write p r.valid ∙ rw (r.sized, r.holds) (keep_last-keep_last size past p);
    map = r.map;
    subscribed = r.subscribed;
  }
  Ready-apply (redraw p) {size} {past} {s} r h = record {
    pos = r.pos;
    sized = size-write (Ring.reset s.ring) p ∙ size-reset s.ring ∙ r.sized;
    valid = write-IsValid p (reset-IsValid s.ring);
    holds = contents-write p (reset-IsValid s.ring) ∙ rw (size-reset, r.sized, contents-reset);
    map = r.map;
    subscribed = r.subscribed;
  }
  Ready-apply (attach d client) {s = s} r h =
      let (same_ring, same_subs) = request_snapshot_keeps s d client in
      record {
        pos = r.pos;
        sized = ap (λ (b : Buffer). length b.buf) same_ring ∙ r.sized;
        valid = subst IsValid (sym same_ring) r.valid;
        holds = ap contents same_ring ∙ r.holds;
        map = subst IsMap (sym same_subs) r.map;
        subscribed = (r.subscribed.0, ap (lookup c) same_subs ∙ r.subscribed.1);
      }
  Ready-apply (join d callback) {s = s} r h = record {
    pos = r.pos;
    sized = r.sized;
    valid = r.valid;
    holds = r.holds;
    map = (ground (arith, lookup-remove d d s.subs), remove-IsMap d s.subs r.map);
    subscribed = elim (Bool-cases (d == c)) [
      | inl same ↦ (callback, rw same)
      | inr other ↦ (r.subscribed.0, rw (other, lookup-remove d c s.subs, other) r.subscribed.1)
    ];
  }
  Ready-apply (leave d) {s = s} r h = record {
    pos = r.pos;
    sized = r.sized;
    valid = r.valid;
    holds = r.holds;
    map = remove-IsMap d s.subs r.map;
    subscribed = (r.subscribed.0, lookup-remove d c s.subs ∙ ground (arith, r.subscribed.1));
  }
  Ready-apply (read d) r h = record {
    pos = r.pos;
    sized = r.sized;
    valid = r.valid;
    holds = r.holds;
    map = r.map;
    subscribed = r.subscribed;
  }

  -- What a call hands to channel `c`.
  Handed : Stream → List Event → Stream → Type 0
  Handed s events s' =
      (delivered (s'.chan c) ≡ delivered (s.chan c) ++ events)
      × ((s'.chan c).overflows ≡ (s.chan c).overflows)

  apply-Handed :
      (op : Op) {size : ℕ} {past : Bytes} {s : Stream}
      → Ready size past s
      → KeepsUp s op
      → Handed s (owed size past op) (apply s op)
  unfolding Handed apply owed emit emit_reset subscribe unsubscribe
  apply-Handed (put p) {s = s} r h =
      broadcast_to (output p) s.subs s.chan c r.subscribed.0 r.map r.subscribed.1 h
  apply-Handed (redraw p) {s = s} r h =
      broadcast_to (output p) s.subs s.chan c r.subscribed.0 r.map r.subscribed.1 h
  apply-Handed (attach d client) {size} {past} {s} r h = elim (Bool-cases (d == c)) [
    | inl same ↦
        let at : d ≡ c = (==_iff d c).0 same in
        let room : has_room (s.chan d) ≡ true = rw at (h at) in
        let grown : (request_snapshot s d client).1.chan c
            ≡ enqueue (snapshot_for client (keep_last size past)) (s.chan c) =
          (request_snapshot_lem s d c client).1 ∙ rw (same, room, Ready-snapshot r) in
        rw (same, grown) (delivered-enqueue _ (s.chan c), refl)
    | inr other ↦
        let kept : (request_snapshot s d client).1.chan c ≡ s.chan c =
          (request_snapshot_lem s d c client).1 ∙ rw other in
        rw (other, kept) (sym (append-nil _), refl)
  ]
  apply-Handed (join d callback) r h = (sym (append-nil _), refl)
  apply-Handed (leave d) r h = (sym (append-nil _), refl)
  apply-Handed (read d) {s = s} r h =
      (delivered-receive s d c ∙ sym (append-nil _), overflows-receive s d c)

  -- A subscriber whose channel has room at each send, and that does not leave, is handed, behind
  -- what it already has, exactly the output that follows, once and in order, and at each attach a
  -- snapshot that holds the last `size` bytes of the output before it since the last reset and
  -- none of the output after it. Its overflow callback does not run.
  pub delivered-run :
      (ops : List Op) {size : ℕ} {past : Bytes} {s : Stream}
      → Ready size past s
      → AllKeepUp s ops
      → (delivered ((run s ops).chan c) ≡ delivered (s.chan c) ++ expected size past ops)
        × (((run s ops).chan c).overflows ≡ (s.chan c).overflows)
  unfolding run expected Handed
  delivered-run [] r h = (sym (append-nil _), refl)
  delivered-run (op ∷ ops) {size} {past} {s} r h =
      let (handed, same) = apply-Handed op r h.0 in
      let (later, same') = delivered-run ops (Ready-apply op r h.0) h.1 in
      (later ∙ rw handed (append_assoc (delivered (s.chan c)) _ _), same' ∙ same)
