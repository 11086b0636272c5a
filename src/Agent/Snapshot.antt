-- ===== src/Agent/Snapshot.antt =====
-- cmd/scomp/main.go, `sendSnapshot`: the attach replay of one client.
pub mod Batch
pub mod Replay
use scomp_agent.Common.{
  ℕ, zero, suc, ◌+◌, ◌-◌, ◌%◌, ◌^◌, min, Bool, Option, none, some, ltb, if◌then◌else◌, Bytes,
  length, take, drop, text,
}
use scomp_agent.Base64
use scomp_agent.Protocol.{AgentMsg, empty_msg, snapshot_chunk_bytes}

abbrev pub start_msg : Bytes → Bytes → ℕ → AgentMsg
start_msg sid cid total = record empty_msg {
  kind = text "snapshot_start";
  session_id = sid;
  client_id = cid;
  total = total;
}

abbrev pub chunk_msg : Bytes → Bytes → ℕ → Bytes → AgentMsg
chunk_msg sid cid seq chunk = record empty_msg {
  kind = text "snapshot_chunk";
  session_id = sid;
  client_id = cid;
  seq = seq;
  payload = Base64.encode chunk;
}

abbrev pub end_msg : Bytes → Bytes → ℕ → AgentMsg
end_msg sid cid seq = record empty_msg {
  kind = text "snapshot_end";
  session_id = sid;
  client_id = cid;
  seq = seq;
}

-- `enqueue` is a callback with a state of its own; it reports whether the message was queued.
module _ {S : Type 0} (enqueue : AgentMsg → S → Bool × S) (sid cid : Bytes) where
  -- The loop over `offset`, for chunks of `size` bytes. It returns the last `seq`, or `none` where
  -- `sendSnapshot` returns early. Each round takes a byte at least, so the length is enough fuel.
  pub send_chunks : ℕ → Bytes → ℕ → ℕ → ℕ → S → Option ℕ × S
  send_chunks size history zero offset seq s = (some seq, s)
  send_chunks size history (suc fuel) offset seq s =
      let seq' = (seq + 1) % 2 ^ 32 in
      let stop = min (offset + size) (length history) in
      let chunk = take (stop - offset) (drop offset history) in
      let (ok, s') = enqueue (chunk_msg sid cid seq' chunk) s in
      let rest = send_chunks size history fuel (offset + size) seq' s' in
      if ltb offset (length history) then (if ok then rest else (none, s')) else (some seq, s)

  pub send_end : Option ℕ × S → S
  send_end (none, s) = s
  send_end (some seq, s) = (enqueue (end_msg sid cid seq) s).1

  unfoldable pub send_snapshot : Bytes → S → S
  unfolding send_chunks send_end
  send_snapshot history s =
      let (ok, s') = enqueue (start_msg sid cid (length history)) s in
      let chunked = send_chunks snapshot_chunk_bytes history (length history) 0 0 s' in
      if ok then send_end chunked else s'
