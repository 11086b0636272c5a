-- ===== src/Agent/Handler/View.antt =====
-- Handling a message leaves `availableLazy` alone.
use scomp_agent.Common.{
  equal, lookup, erase, ℕ, ◌≡◌, refl, ◌∙◌, Bool, true, false, not, Option, none, some, List, [],
  ◌∷◌, ◌==◌, if◌then◌else◌, Bytes, set, text,
}
use scomp_agent.Protocol.{AgentMsg, ServerMsg}
use scomp_agent.Base64.{decode}
use scomp_agent.Agent.Policy.{input_allowed, resize_allowed}
use scomp_agent.Agent.Snapshot.{send_snapshot}
use scomp_agent.Agent.Snapshot.Batch.{send_all, batch, send_snapshot-batch}
use scomp_agent.Agent.Handler.{
  State, Outside, LazySession, emit, send, always, wrote, resized, activating, pairing, mode_of,
  is_current, session_remove, handle_data, handle_input, handle_resize, restore_lazy,
  finish_session, finish_found, finish_if_ended, request_found, request_snapshot, reject_attach,
  activated, attach_lazy, attach_found, handle_attach, handle,
}
use scomp_agent.Agent.Handler.Start.{start_forwarder_available}

-- Two states with the same map.
abbrev pub Same : State → State → Type 0
Same s t = t.available ≡ s.available

Same-if : (s : State) (b : Bool) (x y : State) → Same s x → Same s y → Same s (if b then x else y)
Same-if s true x y h k = h
Same-if s false x y h k = k

module _ (out : Outside) where
  send_all_available : (ms : List AgentMsg) (s : State) → Same s (send_all (always out) ms s).1
  unfolding send_all
  send_all_available [] s = refl
  send_all_available (m ∷ ms) s = send_all_available ms (send m s)

  send_snapshot_available :
      (sid cid history : Bytes) (s : State) → Same s (send_snapshot (always out) sid cid history s)
  send_snapshot_available sid cid history s =
      rw (send_snapshot-batch (always out) sid cid history s)
        (send_all_available (batch sid cid history) s)

  handle_input_available :
      (s : State) (msg : ServerMsg) (o : Option ℕ) → Same s (handle_input out s msg o)
  unfolding handle_input handle_data
  handle_input_available s msg none = refl
  handle_input_available s msg (some sess) =
      elim (decode msg.payload) as (λ d. Same s (handle_data out s msg.session_id sess d)) [
        | none ↦ refl
        | some input ↦
            Same-if s (not (input_allowed (mode_of (lookup msg.session_id s.modes)) input)) s
              (emit (wrote sess input) s) refl refl
      ]

  handle_resize_available :
      (s : State) (msg : ServerMsg) (o : Option ℕ) → Same s (handle_resize out s msg o)
  unfolding handle_resize
  handle_resize_available s msg none = refl
  handle_resize_available s msg (some sess) =
      Same-if s (not (resize_allowed (mode_of (lookup msg.session_id s.modes)))) s
        (emit (resized sess msg.cols msg.rows) s) refl refl

  restore_lazy_available :
      (s : State) (id : Bytes) (o : Option LazySession) → Same s (restore_lazy out s id o)
  unfolding restore_lazy
  restore_lazy_available s id none = refl
  restore_lazy_available s id (some ls) = refl

  pub finish_session_available :
      (s : State) (id : Bytes) (fw : ℕ) → Same s (finish_session out s id fw)
  unfolding finish_session
  finish_session_available s id fw =
      Same-if s (not (is_current out (lookup id s.forwarders) fw)) s _ refl (
        Same-if s (out.conn_done s.effects) s _ refl (
          restore_lazy_available
            (send (session_remove id)
              (record s { forwarders = erase id s.forwarders; modes = erase id s.modes }))
            id (lookup id s.available)))

  finish_found_available :
      (s : State) (id : Bytes) (o a : Option ℕ) → Same s (finish_found out s id o a)
  unfolding finish_found
  finish_found_available s id none a = refl
  finish_found_available s id (some fw) (some sess) = refl
  finish_found_available s id (some fw) none = finish_session_available s id fw

  request_found_available :
      (s : State) (sid cid : Bytes) (o a : Option ℕ) → Same s (request_found out s sid cid o a)
  unfolding request_found
  request_found_available s sid cid (some sess) (some fw) = refl
  request_found_available s sid cid none a = send_snapshot_available sid cid [] s
  request_found_available s sid cid (some sess) none = send_snapshot_available sid cid [] s

  attach_lazy_available :
      (s : State) (msg : ServerMsg) (ls : LazySession) (o : Option ℕ)
      → Same s (attach_lazy out s msg ls o)
  unfolding attach_lazy request_snapshot reject_attach activated
  attach_lazy_available s msg ls (some sess) =
      request_found_available (record s { lazy_map = erase ls.id s.lazy_map }) msg.session_id
        msg.client_id _ _
  attach_lazy_available s msg ls none =
      let cols = if msg.cols == 0 then 80 else msg.cols in
      let rows = if msg.rows == 0 then 24 else msg.rows in
      let tried = emit (activating ls.id cols rows) s in
      let live = activated out tried ls cols rows in
      Same-if s (not (out.activates s.effects ls.id)) _ _
        (send_snapshot_available ls.id msg.client_id [] tried)
        (request_found_available (record live { lazy_map = erase ls.id live.lazy_map })
            msg.session_id msg.client_id _ _
          ∙ start_forwarder_available out (record tried { modes = set ls.id ls.mode tried.modes })
              ls.id)

  attach_found_available :
      (s : State) (msg : ServerMsg) (o : Option LazySession) → Same s (attach_found out s msg o)
  unfolding attach_found request_snapshot
  attach_found_available s msg none = request_found_available s msg.session_id msg.client_id _ _
  attach_found_available s msg (some ls) = attach_lazy_available s msg ls (out.get s.effects ls.id)

  handle_attach_available : (s : State) (msg : ServerMsg) → Same s (handle_attach out s msg)
  unfolding handle_attach finish_if_ended
  handle_attach_available s msg =
      let s' =
        finish_found out s msg.session_id (lookup msg.session_id s.forwarders)
          (out.get s.effects msg.session_id) in
      attach_found_available s' msg (lookup msg.session_id s'.lazy_map)
      ∙ finish_found_available s msg.session_id _ _

  pub handle_available : (msg : ServerMsg) (s : State) → (handle out msg s).available ≡ s.available
  unfolding handle
  handle_available msg s =
      Same-if s (equal msg.kind (text "input")) _ _ (handle_input_available s msg _) (
        Same-if s (equal msg.kind (text "resize")) _ _ (handle_resize_available s msg _) (
          Same-if s (equal msg.kind (text "client_attach")) _ _ (handle_attach_available s msg) (
            Same-if s (equal msg.kind (text "pair_request")) _ _
              (Same-if s out.pairs (emit (pairing msg.pair_id) s) s refl refl) refl)))
