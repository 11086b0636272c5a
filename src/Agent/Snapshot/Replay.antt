-- ===== src/Agent/Snapshot/Replay.antt =====
-- The batch against its reader: what protocol/protocol.go promises of an attach replay.
use scomp_agent.Common.{
  equal, ℕ, zero, suc, ◌+◌, ◌%◌, ◌^◌, ◌≤◌, ◌<◌, ◌≡◌, refl, Bool, ◌&&◌, Option, none, some, List, [],
  ◌∷◌, ◌++◌, append-nil, append_assoc, arith, ltb, leb, ◌==◌, if◌then◌else◌, Bytes, length, take,
  drop, length-append, length-take, length-drop, take-append-drop, equal_refl, text,
}
use mathlib.Core.Path.{subst}
use scomp_agent.Base64
use scomp_agent.Base64.{bind}
use scomp_agent.Base64.RoundTrip.{IsBytes, decode-encode}
use scomp_agent.Protocol.{AgentMsg, snapshot_chunk_bytes}
use scomp_agent.Agent.Snapshot.{chunk_msg, end_msg}
use scomp_agent.Agent.Snapshot.Batch.{pieces, numbered, last_seq, batch}

-- A reader that takes nothing but what the protocol describes: chunks of 1 to `size` bytes whose
-- numbers go up by one from `seq`, then one end that repeats the last number, for one session and
-- one client, with `total` bytes in all.
module _ (sid cid : Bytes) (size total : ℕ) where
  abbrev addressed : Bytes → AgentMsg → Bool
  addressed kind m = equal m.kind kind && equal m.session_id sid && equal m.client_id cid

  abbrev accepts_end : ℕ → Bytes → AgentMsg → Bool
  accepts_end seq got m = addressed (text "snapshot_end") m && m.seq == seq && length got == total

  abbrev accepts_chunk : ℕ → AgentMsg → Bytes → Bool
  accepts_chunk seq m p =
      addressed (text "snapshot_chunk") m
      && m.seq == seq + 1
      && ltb 0 (length p)
      && leb (length p) size

  unfoldable pub read_chunks : ℕ → Bytes → List AgentMsg → Option Bytes
  read_chunks seq got [] = none
  read_chunks seq got (m ∷ []) = if accepts_end seq got m then some got else none
  read_chunks seq got (m ∷ m' ∷ ms) = bind (Base64.decode m.payload) λ p.
      let rest = read_chunks (seq + 1) (got ++ p) (m' ∷ ms) in
      if accepts_chunk seq m p then rest else none

unfoldable pub read_batch : Bytes → Bytes → List AgentMsg → Option Bytes
unfolding read_chunks
read_batch sid cid [] = none
read_batch sid cid (m ∷ ms) =
    if equal m.kind (text "snapshot_start") && equal m.session_id sid && equal m.client_id cid
    then read_chunks sid cid snapshot_chunk_bytes m.total 0 [] ms
    else none

-- Pieces as the reader wants them.
abbrev Fit : ℕ → List Bytes → Type 0
Fit size [] = Unit
Fit size (p ∷ ps) = (0 < length p) × (length p ≤ size) × IsBytes p × Fit size ps

abbrev joined : List Bytes → Bytes
joined [] = []
joined (p ∷ ps) = p ++ joined ps

read_chunks_end :
    (sid cid : Bytes) (size seq : ℕ) (got : Bytes)
    → read_chunks sid cid size (length got) seq got (end_msg sid cid seq ∷ []) ≡ some got
unfolding read_chunks
read_chunks_end sid cid size seq got = simp equal_refl (ground arith)

read_chunks_step :
    (sid cid : Bytes) (size total seq : ℕ) (got p : Bytes) (ms : List AgentMsg)
    → 0 < length ms
    → 0 < length p
    → length p ≤ size
    → IsBytes p
    → read_chunks sid cid size total seq got (chunk_msg sid cid (seq + 1) p ∷ ms)
      ≡ read_chunks sid cid size total (seq + 1) (got ++ p) ms
unfolding read_chunks
read_chunks_step sid cid size total seq got p [] hm h0 h1 hb = absurd (omega arith)
read_chunks_step sid cid size total seq got p (m ∷ ms) hm h0 h1 hb =
    rw (decode-encode p hb) (simp equal_refl (ground arith))

read_chunks-numbered :
    (ps : List Bytes) (sid cid : Bytes) (size seq : ℕ) (got : Bytes)
    → Fit size ps
    → seq + length ps < 2 ^ 32
    → read_chunks sid cid size
        (length (got ++ joined ps))
        seq
        got
        (numbered sid cid seq ps ++ end_msg sid cid (last_seq seq ps) ∷ [])
      ≡ some (got ++ joined ps)
unfolding numbered last_seq
read_chunks-numbered [] sid cid size seq got f h =
    rw append-nil (read_chunks_end sid cid size seq got)
read_chunks-numbered (p ∷ ps) sid cid size seq got (f0, f1, fb, fs) h =
    let next : (seq + 1) % 2 ^ 32 ≡ seq + 1 = omega arith in
    let more = numbered sid cid (seq + 1) ps ++ end_msg sid cid (last_seq (seq + 1) ps) ∷ [] in
    rw
      (
        next,
        ← append_assoc got p (joined ps),
        read_chunks_step sid cid size (length ((got ++ p) ++ joined ps)) seq got p more
            (omega (
              arith,
              length-append {0} (numbered sid cid (seq + 1) ps)
                  (end_msg sid cid (last_seq (seq + 1) ps) ∷ []),
            ))
            f0 f1 fb,
      )
      (read_chunks-numbered ps sid cid size (seq + 1) (got ++ p) fs (omega arith))

take-IsBytes : (n : ℕ) (p : Bytes) → IsBytes p → IsBytes (take n p)
take-IsBytes zero p b = tt
take-IsBytes (suc n) [] b = tt
take-IsBytes (suc n) (x ∷ p) b = (b.0, take-IsBytes n p b.1)

drop-IsBytes : (n : ℕ) (p : Bytes) → IsBytes p → IsBytes (drop n p)
drop-IsBytes zero p b = b
drop-IsBytes (suc n) [] b = tt
drop-IsBytes (suc n) (x ∷ p) b = drop-IsBytes n p b.1

Fit-pieces :
    (size fuel : ℕ) (rest : Bytes)
    → 0 < size
    → length rest ≤ fuel
    → IsBytes rest
    → Fit size (pieces size fuel rest)
      × (joined (pieces size fuel rest) ≡ rest)
      × (length (pieces size fuel rest) ≤ fuel)
unfolding pieces
Fit-pieces size zero [] pos h b = (tt, refl, omega arith)
Fit-pieces size zero (x ∷ rest) pos h b = absurd (omega arith)
Fit-pieces size (suc fuel) [] pos h b = (tt, refl, omega arith)
Fit-pieces size (suc fuel) (x ∷ rest) pos h b =
    let (fit, same, few) =
      Fit-pieces size fuel (drop size (x ∷ rest)) pos
        (omega (arith, length-drop {0} size (x ∷ rest))) (drop-IsBytes size (x ∷ rest) b) in
    (
      (
        omega (arith, length-take {0} size (x ∷ rest)),
        omega (arith, length-take {0} size (x ∷ rest)),
        take-IsBytes size (x ∷ rest) b,
        fit,
      ),
      rw same (take-append-drop size (x ∷ rest)),
      omega arith,
    )

-- The relay can rebuild the snapshot from the batch: a reader that checks every number, length,
-- address and total finds just the history, for a history of bytes that is shorter than 2^32.
pub read_batch-batch :
    (sid cid history : Bytes)
    → IsBytes history
    → length history < 2 ^ 32
    → read_batch sid cid (batch sid cid history) ≡ some history
unfolding read_batch batch
read_batch-batch sid cid history b h =
    let ps = pieces snapshot_chunk_bytes (length history) history in
    let sent = numbered sid cid 0 ps ++ end_msg sid cid (last_seq 0 ps) ∷ [] in
    let (fit, same, few) =
      Fit-pieces snapshot_chunk_bytes (length history) history (omega arith) (omega arith) b in
    simp equal_refl (
      subst (λ x. read_chunks sid cid snapshot_chunk_bytes (length x) 0 [] sent ≡ some x) same
        (read_chunks-numbered ps sid cid snapshot_chunk_bytes 0 [] fit (omega arith)))
