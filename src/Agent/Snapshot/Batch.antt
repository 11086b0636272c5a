-- ===== src/Agent/Snapshot/Batch.antt =====
-- The messages of one attach replay, and that `sendSnapshot` sends just these.
use scomp_agent.Common.{
  ℕ, zero, suc, ◌+◌, ◌-◌, ◌%◌, ◌^◌, ◌<◌, min, ◌≡◌, refl, inl, inr, Bool, true, false, Option, none,
  some, List, [], ◌∷◌, ◌++◌, arith, ltb, if◌then◌else◌, tests, Bool-cases, Bytes, length, take,
  drop, length-drop, drop-drop, take_agree,
}
use scomp_agent.Protocol.{AgentMsg, snapshot_chunk_bytes}
use scomp_agent.Agent.Snapshot.{start_msg, chunk_msg, end_msg, send_chunks, send_snapshot, send_end}

-- The history in pieces of `size` bytes, the last one shorter.
unfoldable pub pieces : ℕ → ℕ → Bytes → List Bytes
pieces size zero rest = []
pieces size (suc fuel) [] = []
pieces size (suc fuel) (x ∷ rest) = take size (x ∷ rest) ∷ pieces size fuel (drop size (x ∷ rest))

-- Numbered from the one after `seq` on.
unfoldable pub numbered : Bytes → Bytes → ℕ → List Bytes → List AgentMsg
numbered sid cid seq [] = []
numbered sid cid seq (p ∷ ps) =
    chunk_msg sid cid ((seq + 1) % 2 ^ 32) p ∷ numbered sid cid ((seq + 1) % 2 ^ 32) ps

unfoldable pub last_seq : ℕ → List Bytes → ℕ
last_seq seq [] = seq
last_seq seq (p ∷ ps) = last_seq ((seq + 1) % 2 ^ 32) ps

unfoldable pub batch : Bytes → Bytes → Bytes → List AgentMsg
batch sid cid history =
    let ps = pieces snapshot_chunk_bytes (length history) history in
    start_msg sid cid (length history)
    ∷ (numbered sid cid 0 ps ++ end_msg sid cid (last_seq 0 ps) ∷ [])

pieces_step :
    (size fuel : ℕ) (rest : Bytes)
    → 0 < length rest
    → pieces size (suc fuel) rest ≡ take size rest ∷ pieces size fuel (drop size rest)
unfolding pieces
pieces_step size fuel [] h = absurd (omega arith)
pieces_step size fuel (x ∷ rest) h = refl

pieces_done : (size fuel : ℕ) (rest : Bytes) → length rest ≡ 0 → pieces size fuel rest ≡ []
unfolding pieces
pieces_done size zero rest h = refl
pieces_done size (suc fuel) [] h = refl
pieces_done size (suc fuel) (x ∷ rest) h = absurd (omega arith)

-- The slice of one round, `history[offset:min(offset+size, len(history))]`.
slice_take :
    (size offset : ℕ) (history : Bytes)
    → take (min (offset + size) (length history) - offset) (drop offset history)
      ≡ take size (drop offset history)
slice_take size offset history =
    take_agree _ size (drop offset history) (omega (arith, length-drop {0} offset history))

module _ {S : Type 0} (enqueue : AgentMsg → S → Bool × S) where
  -- Messages are queued in order until one is refused.
  unfoldable pub send_all : List AgentMsg → S → Bool × S
  send_all [] s = (true, s)
  send_all (m ∷ ms) s =
      let (ok, s') = enqueue m s in let rest = send_all ms s' in if ok then rest else (false, s')

  abbrev outcome : ℕ → Bool × S → Option ℕ × S
  outcome seq (ok, s) = (if ok then some seq else none, s)

  if_outcome :
      (ok : Bool) (seq : ℕ) (r : Bool × S) (s' : S)
      → (if ok then outcome seq r else (none, s')) ≡ outcome seq (if ok then r else (false, s'))
  if_outcome true seq r s' = refl
  if_outcome false seq r s' = refl

  send_chunks_lem :
      (sid cid history : Bytes) (size fuel offset seq : ℕ) (s : S)
      → send_chunks enqueue sid cid size history fuel offset seq s
        ≡ outcome
            (last_seq seq (pieces size fuel (drop offset history)))
            (send_all (numbered sid cid seq (pieces size fuel (drop offset history))) s)
  unfolding send_chunks pieces numbered last_seq send_all
  send_chunks_lem sid cid history size zero offset seq s = refl
  send_chunks_lem sid cid history size (suc fuel) offset seq s =
      elim (Bool-cases (ltb offset (length history))) [
        | inl more ↦
            rw
              (
                more,
                slice_take size offset history,
                pieces_step size fuel (drop offset history)
                    (omega (tests, length-drop {0} offset history)),
                drop-drop size offset history,
                send_chunks_lem sid cid history size fuel (offset + size) ((seq + 1) % 2 ^ 32),
              )
              (let seq' = (seq + 1) % 2 ^ 32 in
                let ps = pieces size fuel (drop (offset + size) history) in
                let out = enqueue (chunk_msg sid cid seq' (take size (drop offset history))) s in
                if_outcome out.0 (last_seq seq' ps) (send_all (numbered sid cid seq' ps) out.1)
                  out.1)
        | inr done ↦ rw (
          done,
          pieces_done size (suc fuel) (drop offset history)
              (omega (tests, length-drop {0} offset history)),
        )
      ]

  send_all-append :
      (xs ys : List AgentMsg) (s : S)
      → send_all (xs ++ ys) s
        ≡ (let (ok, s') = send_all xs s in if ok then send_all ys s' else (false, s'))
  unfolding send_all
  send_all-append [] ys s = refl
  send_all-append (x ∷ xs) ys s = ground (arith, send_all-append xs ys (enqueue x s).1)

  -- `sendSnapshot` offers the queue the messages of the batch in order, and stops behind the first
  -- that the queue refuses.
  pub send_snapshot-batch :
      (sid cid history : Bytes) (s : S)
      → send_snapshot enqueue sid cid history s ≡ (send_all (batch sid cid history) s).1
  unfolding send_snapshot batch send_all
  send_snapshot-batch sid cid history s =
      let ps = pieces snapshot_chunk_bytes (length history) history in
      let out = enqueue (start_msg sid cid (length history)) s in
      rw
        (
          send_chunks_lem sid cid history snapshot_chunk_bytes (length history) 0 0,
          send_all-append (numbered sid cid 0 ps) (end_msg sid cid (last_seq 0 ps) ∷ []),
        )
        (finish out.0 (last_seq 0 ps) (send_all (numbered sid cid 0 ps) out.1) out.1)
    where
      finish :
          (ok : Bool) (seq : ℕ) (r : Bool × S) (s' : S)
          → (if ok then send_end enqueue sid cid (outcome seq r) else s')
            ≡ (if ok
                then (let (ok', t) = r in
                    if ok' then send_all (end_msg sid cid seq ∷ []) t else (false, t))
                else (false, s')).1
      finish true seq (true, t) s' = ground arith
      finish true seq (false, t) s' = refl
      finish false seq r s' = refl
