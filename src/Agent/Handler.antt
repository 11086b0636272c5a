-- ===== src/Agent/Handler.antt =====
-- cmd/scomp/main.go: `handleServerMsg`, and the parts of `runAgent` that it calls on the main loop.
-- What happens outside (a write to a terminal, a call of `send`) is appended to a list; whether
-- the outbound queue has room for a message is not modelled.
pub mod Grows
pub mod Attach
pub mod Guard
pub mod Start
pub mod View
use scomp_agent.Common.{
  equal, lookup, erase, ℕ, ◌+◌, ◌-◌, Bool, true, false, not, Option, none, some, List, [], ◌∷◌,
  ◌++◌, ◌==◌, if◌then◌else◌, Bytes, Map, set, text,
}
use scomp_agent.Base64.{decode}
use scomp_agent.Protocol.{SessionMode, AgentMsg, empty_msg, ServerMsg}
use scomp_agent.Agent.Policy.{input_allowed, resize_allowed}
use scomp_agent.Agent.Snapshot.{send_snapshot}

-- `activate` is a callback, known by the session's identifier.
pub record LazySession : Type 0 where
  pub id : Bytes
  pub cmd : Bytes
  pub created : ℕ
  pub mode : SessionMode

pub data Effect : Type 0 where
  wrote : ℕ → Bytes → Effect
  resized : ℕ → ℕ → ℕ → Effect
  activating : Bytes → ℕ → ℕ → Effect
  forwarding : Bytes → Effect
  asked_snapshot : ℕ → Bytes → Bytes → Effect
  pairing : Bytes → Effect
  sent : AgentMsg → Effect

-- The maps of `runAgent`; a forwarder is known by a number.
pub record State : Type 0 where
  pub modes : Map SessionMode
  pub lazy_map : Map LazySession
  pub available : Map LazySession
  pub forwarders : Map ℕ
  pub effects : List Effect

-- What the code asks of its surroundings: `reg.Get`, whether an activation succeeds, the forwarder
-- that starting one makes, whether the connection is down before a forwarder has stopped, and
-- whether there is a prompt for pairing.
pub record Outside : Type 0 where
  pub get : List Effect → Bytes → Option ℕ
  pub activates : List Effect → Bytes → Bool
  pub new_forwarder : List Effect → ℕ
  pub conn_done : List Effect → Bool
  pub pairs : Bool

abbrev pub emit : Effect → State → State
emit e s = record s { effects = s.effects ++ e ∷ [] }

abbrev pub send : AgentMsg → State → State
send m s = emit (sent m) s

abbrev pub session_remove : Bytes → AgentMsg
session_remove id = record empty_msg { kind = text "session_remove"; session_id = id }

abbrev pub session_add : LazySession → Bool → ℕ → ℕ → AgentMsg
session_add ls active cols rows = record empty_msg {
  kind = text "session_add";
  session_id = ls.id;
  info = some (record {
    id = ls.id;
    cmd = ls.cmd;
    created = ls.created;
    mode = ls.mode;
    active = active;
    cols = cols;
    rows = rows;
  });
}

-- A missing key reads as the empty mode.
abbrev pub mode_of : Option SessionMode → SessionMode
mode_of none = []
mode_of (some m) = m

module _ (out : Outside) where
  handle_data : State → Bytes → ℕ → Option Bytes → State
  handle_data s id sess none = s
  handle_data s id sess (some input) =
      if not (input_allowed (mode_of (lookup id s.modes)) input)
      then s
      else emit (wrote sess input) s

  pub handle_input : State → ServerMsg → Option ℕ → State
  unfolding handle_data
  handle_input s msg none = s
  handle_input s msg (some sess) = handle_data s msg.session_id sess (decode msg.payload)

  pub handle_resize : State → ServerMsg → Option ℕ → State
  handle_resize s msg none = s
  handle_resize s msg (some sess) =
      if not (resize_allowed (mode_of (lookup msg.session_id s.modes)))
      then s
      else emit (resized sess msg.cols msg.rows) s

  -- `restoreLazySession`, and the message that `finishSession` sends if it succeeds.
  pub restore_lazy : State → Bytes → Option LazySession → State
  restore_lazy s id none = s
  restore_lazy s id (some ls) =
      send (session_add ls false 0 0) (record s { lazy_map = set id ls s.lazy_map })

  abbrev pub is_current : Option ℕ → ℕ → Bool
  is_current none fw = false
  is_current (some f) fw = f == fw

  -- `finishSession`, for the forwarder `fw` of the session `id`.
  pub finish_session : State → Bytes → ℕ → State
  unfolding restore_lazy
  finish_session s id fw =
      if not (is_current (lookup id s.forwarders) fw)
      then s
      else if out.conn_done s.effects
      then s
      else restore_lazy
          (send (session_remove id)
            (record s { forwarders = erase id s.forwarders; modes = erase id s.modes }))
          id (lookup id s.available)

  finish_found : State → Bytes → Option ℕ → Option ℕ → State
  unfolding finish_session
  finish_found s id none alive = s
  finish_found s id (some fw) (some sess) = s
  finish_found s id (some fw) none = finish_session s id fw

  pub finish_if_ended : State → Bytes → State
  unfolding finish_found
  finish_if_ended s id = finish_found s id (lookup id s.forwarders) (out.get s.effects id)

  pub start_found : State → Bytes → Option ℕ → State
  start_found s id none = s
  start_found s id (some sess) =
      emit (forwarding id)
        (record s { forwarders = set id (out.new_forwarder s.effects) s.forwarders })

  pub start_forwarder : State → Bytes → State
  unfolding start_found
  start_forwarder s id = start_found s id (out.get s.effects id)

  -- The queue of `send`, which reports that every message was taken.
  abbrev pub always : AgentMsg → State → Bool × State
  always m s = (true, send m s)

  -- `requestSnapshot`; the event goes to the channel of the session's forwarder.
  request_found : State → Bytes → Bytes → Option ℕ → Option ℕ → State
  request_found s sid cid (some sess) (some fw) = emit (asked_snapshot fw sid cid) s
  request_found s sid cid _ _ = send_snapshot always sid cid [] s

  pub request_snapshot : State → Bytes → Bytes → State
  unfolding request_found
  request_snapshot s sid cid =
      request_found s sid cid (out.get s.effects sid) (lookup sid s.forwarders)

  pub reject_attach : State → LazySession → Bytes → State
  reject_attach s ls cid =
      send (session_add ls false 0 0)
        (send (session_remove ls.id) (send_snapshot always ls.id cid [] s))

  -- The activation of a lazy session; `none` is the early return.
  pub activated : State → LazySession → ℕ → ℕ → State
  unfolding start_forwarder
  activated s ls cols rows =
      send (session_add ls true cols rows)
        (start_forwarder (record s { modes = set ls.id ls.mode s.modes }) ls.id)

  pub attach_lazy : State → ServerMsg → LazySession → Option ℕ → State
  unfolding activated reject_attach request_snapshot
  attach_lazy s msg ls (some sess) =
      request_snapshot (record s { lazy_map = erase ls.id s.lazy_map }) msg.session_id msg.client_id
  attach_lazy s msg ls none =
      let cols = if msg.cols == 0 then 80 else msg.cols in
      let rows = if msg.rows == 0 then 24 else msg.rows in
      let tried = emit (activating ls.id cols rows) s in
      if not (out.activates s.effects ls.id)
      then reject_attach tried ls msg.client_id
      else (let live = activated tried ls cols rows in
          request_snapshot (record live { lazy_map = erase ls.id live.lazy_map }) msg.session_id
            msg.client_id)

  pub attach_found : State → ServerMsg → Option LazySession → State
  unfolding attach_lazy
  attach_found s msg none = request_snapshot s msg.session_id msg.client_id
  attach_found s msg (some ls) = attach_lazy s msg ls (out.get s.effects ls.id)

  pub handle_attach : State → ServerMsg → State
  unfolding attach_found finish_if_ended
  handle_attach s msg =
      let s' = finish_if_ended s msg.session_id in
      attach_found s' msg (lookup msg.session_id s'.lazy_map)

  unfoldable pub handle : ServerMsg → State → State
  unfolding handle_input handle_resize handle_attach
  handle msg s =
      if equal msg.kind (text "input")
      then handle_input s msg (out.get s.effects msg.session_id)
      else if equal msg.kind (text "resize")
      then handle_resize s msg (out.get s.effects msg.session_id)
      else if equal msg.kind (text "client_attach")
      then handle_attach s msg
      else if equal msg.kind (text "pair_request")
      then (if out.pairs then emit (pairing msg.pair_id) s else s)
      else s
