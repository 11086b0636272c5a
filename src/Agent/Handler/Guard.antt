-- ===== src/Agent/Handler/Guard.antt =====
-- Remote messages reach a terminal only where the session's mode allows it.
use scomp_agent.Common.{
  equal, lookup, ℕ, ◌≡◌, refl, true, not, Option, none, some, List, arith, Bytes, equal_iff, text,
}
use scomp_agent.Base64.{decode}
use scomp_agent.Protocol.{ServerMsg}
use scomp_agent.Agent.Policy.{input_allowed, resize_allowed}
use scomp_agent.Agent.Handler.{
  Effect, wrote, resized, activating, forwarding, asked_snapshot, pairing, sent, State, Outside,
  emit, mode_of, handle_data, handle_input, handle_resize, handle,
}
use scomp_agent.Agent.Handler.Attach.{handle_attach-Grows}
use scomp_agent.Agent.Handler.Grows.{IsPlain, Grows, stay-Grows, emit-Grows, weaken-AllOf, Grows-if}

module _ (out : Outside) where
  -- What entitles a message to an effect: only an input message with input that the mode allows is
  -- written, and to the running session it names; only a resize message in a mode that allows it
  -- changes a size.
  abbrev pub IsAllowed : State → ServerMsg → Effect → Type 0
  IsAllowed s msg (wrote t input) =
      (msg.kind ≡ text "input")
      × (out.get s.effects msg.session_id ≡ some t)
      × (decode msg.payload ≡ some input)
      × (input_allowed (mode_of (lookup msg.session_id s.modes)) input ≡ true)
  IsAllowed s msg (resized t cols rows) =
      (msg.kind ≡ text "resize")
      × (out.get s.effects msg.session_id ≡ some t)
      × (resize_allowed (mode_of (lookup msg.session_id s.modes)) ≡ true)
  IsAllowed s msg (activating id cols rows) = Unit
  IsAllowed s msg (forwarding id) = Unit
  IsAllowed s msg (asked_snapshot fw sid cid) = Unit
  IsAllowed s msg (pairing id) = Unit
  IsAllowed s msg (sent m) = Unit

  plain-IsAllowed : (s : State) (msg : ServerMsg) (e : Effect) → IsPlain e → IsAllowed s msg e
  plain-IsAllowed s msg (wrote t input) h = absurd h
  plain-IsAllowed s msg (resized t cols rows) h = absurd h
  plain-IsAllowed s msg (activating id cols rows) h = tt
  plain-IsAllowed s msg (forwarding id) h = tt
  plain-IsAllowed s msg (asked_snapshot fw sid cid) h = tt
  plain-IsAllowed s msg (pairing id) h = tt
  plain-IsAllowed s msg (sent m) h = tt

  handle_data-Grows :
      (s : State) (msg : ServerMsg) (sess : ℕ) (o : Option Bytes)
      → msg.kind ≡ text "input"
      → out.get s.effects msg.session_id ≡ some sess
      → decode msg.payload ≡ o
      → Grows (IsAllowed s msg) s.effects (handle_data out s msg.session_id sess o).effects
  unfolding handle_data
  handle_data-Grows s msg sess none k g d = stay-Grows (IsAllowed s msg) s.effects
  handle_data-Grows s msg sess (some input) k g d =
      Grows-if (IsAllowed s msg) s.effects
        (not (input_allowed (mode_of (lookup msg.session_id s.modes)) input)) s
        (emit (wrote sess input) s) (λ no. stay-Grows (IsAllowed s msg) s.effects)
        λ yes. emit-Grows (IsAllowed s msg) s.effects (wrote sess input) (k, g, d, ground arith)

  handle_input-Grows :
      (s : State) (msg : ServerMsg) (o : Option ℕ)
      → msg.kind ≡ text "input"
      → out.get s.effects msg.session_id ≡ o
      → Grows (IsAllowed s msg) s.effects (handle_input out s msg o).effects
  unfolding handle_input
  handle_input-Grows s msg none k g = stay-Grows (IsAllowed s msg) s.effects
  handle_input-Grows s msg (some sess) k g =
      handle_data-Grows s msg sess (decode msg.payload) k g refl

  handle_resize-Grows :
      (s : State) (msg : ServerMsg) (o : Option ℕ)
      → msg.kind ≡ text "resize"
      → out.get s.effects msg.session_id ≡ o
      → Grows (IsAllowed s msg) s.effects (handle_resize out s msg o).effects
  unfolding handle_resize
  handle_resize-Grows s msg none k g = stay-Grows (IsAllowed s msg) s.effects
  handle_resize-Grows s msg (some sess) k g =
      Grows-if (IsAllowed s msg) s.effects
        (not (resize_allowed (mode_of (lookup msg.session_id s.modes)))) s
        (emit (resized sess msg.cols msg.rows) s) (λ no. stay-Grows (IsAllowed s msg) s.effects)
        λ yes.
          emit-Grows (IsAllowed s msg) s.effects (resized sess msg.cols msg.rows)
            (k, g, ground arith)

  plain-Grows :
      (s : State) (msg : ServerMsg) (es : List Effect)
      → Grows IsPlain s.effects es
      → Grows (IsAllowed s msg) s.effects es
  plain-Grows s msg es (new, e, h) =
      (new, e, weaken-AllOf IsPlain (IsAllowed s msg) new (plain-IsAllowed s msg) h)

  -- Handling a message from the relay appends effects, each of which the message is entitled to:
  -- bytes are written only to the running session that an input message names, only as decoded, and
  -- only where the session's mode allows them; a size changes only for a resize message in a mode
  -- that allows it. An attach writes and resizes nothing.
  pub handle-Grows :
      (msg : ServerMsg) (s : State) → Grows (IsAllowed s msg) s.effects (handle out msg s).effects
  unfolding handle
  handle-Grows msg s =
      Grows-if P es (equal msg.kind (text "input")) _ _
        (λ k. handle_input-Grows s msg _ ((equal_iff msg.kind (text "input")).0 k) refl)
        λ _.
          Grows-if P es (equal msg.kind (text "resize")) _ _
            (λ k. handle_resize-Grows s msg _ ((equal_iff msg.kind (text "resize")).0 k) refl)
            λ _.
              Grows-if P es (equal msg.kind (text "client_attach")) _ _
                (λ k. plain-Grows s msg _ (handle_attach-Grows out s msg))
                λ _.
                  Grows-if P es (equal msg.kind (text "pair_request")) _ _
                    (λ k.
                      Grows-if P es out.pairs _ _ (λ on. emit-Grows P es (pairing msg.pair_id) tt)
                        λ off. stay-Grows P es)
                    λ _. stay-Grows P es
    where
      P : Effect → Type 0
      P = IsAllowed s msg

      es : List Effect
      es = s.effects
