-- ===== src/Agent/Handler/Attach.antt =====
-- An attach, and the end of a session, reach no terminal's input or size.
use scomp_agent.Common.{
  lookup, erase, ℕ, true, false, not, Option, none, some, [], ◌∷◌, ◌++◌, append_assoc, ◌==◌,
  if◌then◌else◌, Bytes, set,
}
use scomp_agent.Protocol.{ServerMsg}
use scomp_agent.Agent.Snapshot.{send_snapshot}
use scomp_agent.Agent.Handler.{
  is_current, always, activating, sent, State, Outside, emit, send, LazySession, handle_attach,
  attach_found, attach_lazy, activated, reject_attach, request_found, request_snapshot, start_found,
  start_forwarder, finish_found, finish_if_ended, finish_session, restore_lazy, session_add,
  session_remove,
}
use scomp_agent.Agent.Handler.Grows.{
  Grows-if, IsPlain, Grows, stay-Grows, trans-Grows, emit-Grows, send_snapshot-Grows,
}

module _ (out : Outside) where
  restore_lazy-Grows :
      (s : State) (id : Bytes) (o : Option LazySession)
      → Grows IsPlain s.effects (restore_lazy out s id o).effects
  unfolding restore_lazy
  restore_lazy-Grows s id none = stay-Grows IsPlain s.effects
  restore_lazy-Grows s id (some ls) = emit-Grows IsPlain s.effects _ tt

  finish_session-Grows :
      (s : State) (id : Bytes) (fw : ℕ)
      → Grows IsPlain s.effects (finish_session out s id fw).effects
  unfolding finish_session
  finish_session-Grows s id fw =
      Grows-if IsPlain s.effects (not (is_current out (lookup id s.forwarders) fw)) s _
        (λ stale. stay-Grows IsPlain s.effects)
        λ current.
          Grows-if IsPlain s.effects (out.conn_done s.effects) s _
            (λ down. stay-Grows IsPlain s.effects)
            λ up.
              trans-Grows IsPlain s.effects (s.effects ++ sent (session_remove id) ∷ []) _
                (emit-Grows IsPlain s.effects (sent (session_remove id)) tt)
                (restore_lazy-Grows
                  (send (session_remove id)
                    (record s { forwarders = erase id s.forwarders; modes = erase id s.modes }))
                  id (lookup id s.available))

  finish_found-Grows :
      (s : State) (id : Bytes) (o a : Option ℕ)
      → Grows IsPlain s.effects (finish_found out s id o a).effects
  unfolding finish_found
  finish_found-Grows s id none a = stay-Grows IsPlain s.effects
  finish_found-Grows s id (some fw) (some sess) = stay-Grows IsPlain s.effects
  finish_found-Grows s id (some fw) none = finish_session-Grows s id fw

  request_found-Grows :
      (s : State) (sid cid : Bytes) (o a : Option ℕ)
      → Grows IsPlain s.effects (request_found out s sid cid o a).effects
  unfolding request_found
  request_found-Grows s sid cid (some sess) (some fw) = emit-Grows IsPlain s.effects _ tt
  request_found-Grows s sid cid none a = send_snapshot-Grows out sid cid [] s
  request_found-Grows s sid cid (some sess) none = send_snapshot-Grows out sid cid [] s

  start_found-Grows :
      (s : State) (id : Bytes) (o : Option ℕ)
      → Grows IsPlain s.effects (start_found out s id o).effects
  unfolding start_found
  start_found-Grows s id none = stay-Grows IsPlain s.effects
  start_found-Grows s id (some sess) = emit-Grows IsPlain s.effects _ tt

  reject_attach-Grows :
      (s : State) (ls : LazySession) (cid : Bytes)
      → Grows IsPlain s.effects (reject_attach out s ls cid).effects
  unfolding reject_attach
  reject_attach-Grows s ls cid =
      let closed = send_snapshot (always out) ls.id cid [] s in
      trans-Grows IsPlain s.effects closed.effects _ (send_snapshot-Grows out ls.id cid [] s) (
        sent (session_remove ls.id) ∷ sent (session_add ls false 0 0) ∷ [],
        append_assoc closed.effects (sent (session_remove ls.id) ∷ []) _,
        (tt, (tt, tt)),
      )

  activated-Grows :
      (s : State) (ls : LazySession) (cols rows : ℕ)
      → Grows IsPlain s.effects (activated out s ls cols rows).effects
  unfolding activated start_forwarder
  activated-Grows s ls cols rows =
      let live = record s { modes = set ls.id ls.mode s.modes } in
      trans-Grows IsPlain s.effects _ _ (start_found-Grows live ls.id (out.get s.effects ls.id))
        (emit-Grows IsPlain _ (sent (session_add ls true cols rows)) tt)

  attach_lazy-Grows :
      (s : State) (msg : ServerMsg) (ls : LazySession) (o : Option ℕ)
      → Grows IsPlain s.effects (attach_lazy out s msg ls o).effects
  unfolding attach_lazy request_snapshot
  attach_lazy-Grows s msg ls (some sess) =
      request_found-Grows (record s { lazy_map = erase ls.id s.lazy_map }) msg.session_id
        msg.client_id _ _
  attach_lazy-Grows s msg ls none =
      let cols = if msg.cols == 0 then 80 else msg.cols in
      let rows = if msg.rows == 0 then 24 else msg.rows in
      let tried = emit (activating ls.id cols rows) s in
      let live = activated out tried ls cols rows in
      trans-Grows IsPlain s.effects tried.effects _
        (emit-Grows IsPlain s.effects (activating ls.id cols rows) tt)
        (Grows-if IsPlain tried.effects (not (out.activates s.effects ls.id)) _ _
          (λ failed. reject_attach-Grows tried ls msg.client_id)
          λ started.
            trans-Grows IsPlain tried.effects live.effects _ (activated-Grows tried ls cols rows) (
              request_found-Grows (record live { lazy_map = erase ls.id live.lazy_map })
                msg.session_id msg.client_id _ _))

  attach_found-Grows :
      (s : State) (msg : ServerMsg) (o : Option LazySession)
      → Grows IsPlain s.effects (attach_found out s msg o).effects
  unfolding attach_found request_snapshot
  attach_found-Grows s msg none = request_found-Grows s msg.session_id msg.client_id _ _
  attach_found-Grows s msg (some ls) = attach_lazy-Grows s msg ls (out.get s.effects ls.id)

  pub handle_attach-Grows :
      (s : State) (msg : ServerMsg) → Grows IsPlain s.effects (handle_attach out s msg).effects
  unfolding handle_attach finish_if_ended
  handle_attach-Grows s msg =
      let s' =
        finish_found out s msg.session_id (lookup msg.session_id s.forwarders)
          (out.get s.effects msg.session_id) in
      trans-Grows IsPlain s.effects s'.effects _ (finish_found-Grows s msg.session_id _ _)
        (attach_found-Grows s' msg (lookup msg.session_id s'.lazy_map))
