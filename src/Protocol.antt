-- ===== src/Protocol.antt =====
-- protocol/protocol.go: the messages between the agent and the relay. JSON is not modelled: a
-- message is the record that `json.Marshal` is given. A string is its bytes; a time is a number.
use scomp_agent.Common.{ℕ, ◌*◌, Bool, Option, none, [], Bytes, text}

-- `SessionMode` is a string; these are its constants.
abbrev pub SessionMode : Type 0
SessionMode = Bytes

abbrev pub mode_full : SessionMode
mode_full = text "full"

abbrev pub mode_readonly : SessionMode
mode_readonly = text "readonly"

abbrev pub mode_approved : SessionMode
mode_approved = text "approved-only"

pub record SessionInfo : Type 0 where
  pub id : Bytes
  pub cmd : Bytes
  pub created : ℕ
  pub mode : SessionMode
  pub active : Bool
  pub cols : ℕ
  pub rows : ℕ

abbrev pub snapshot_chunk_bytes : ℕ
snapshot_chunk_bytes = 48 * 1024

-- `kind` is the field `Type`.
pub record AgentMsg : Type 0 where
  pub kind : Bytes
  pub uid : Bytes
  pub version : Bytes
  pub hostname : Bytes
  pub pub_key : Bytes
  pub sig : Bytes
  pub session_id : Bytes
  pub client_id : Bytes
  pub payload : Bytes
  pub seq : ℕ
  pub total : ℕ
  pub info : Option SessionInfo
  pub pair_id : Bytes
  pub pin : Bytes

-- The zero value of the struct.
abbrev pub empty_msg : AgentMsg
empty_msg = record {
  kind = [];
  uid = [];
  version = [];
  hostname = [];
  pub_key = [];
  sig = [];
  session_id = [];
  client_id = [];
  payload = [];
  seq = 0;
  total = 0;
  info = none;
  pair_id = [];
  pin = [];
}

pub record ServerMsg : Type 0 where
  pub kind : Bytes
  pub session_id : Bytes
  pub client_id : Bytes
  pub payload : Bytes
  pub cols : ℕ
  pub rows : ℕ
  pub pair_id : Bytes
  pub nonce : Bytes
