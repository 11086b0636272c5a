-- ===== src/Ring/Tests.antt =====
-- The ring at concrete inputs.
use scomp_agent.Common.{
  ◌≡◌, refl, ◌↔◌, inl, true, none, some, List, [], ◌∷◌, ◌++◌, arith, keep_last,
}
use scomp_agent.Ring.{Buffer, new, write, snapshot, reset}
use scomp_agent.Ring.Contents.{contents}
use scomp_agent.Ring.Keeps.{contents-write}
use scomp_agent.Ring.Replay.{Op, put, clear, run, history, bytes_of, snapshot-run}

abbrev script : List Op
script = put (1 ∷ 2 ∷ []) ∷ clear ∷ put (3 ∷ 4 ∷ 5 ∷ []) ∷ put (6 ∷ 7 ∷ []) ∷ []

run-script : run (new 4) script ≡ record { buf = 7 ∷ 4 ∷ 5 ∷ 6 ∷ []; head = 1; full = true }
unfolding run write new reset
run-script = refl

snapshot-script : snapshot (run (new 4) script) ≡ some (4 ∷ 5 ∷ 6 ∷ 7 ∷ [])
unfolding run write new reset snapshot
snapshot-script = refl

abbrev wrapped : Buffer
wrapped = record { buf = 7 ∷ 4 ∷ 5 ∷ 6 ∷ []; head = 1; full = true }

contents-write_example :
    contents (write wrapped (8 ∷ 9 ∷ [])) ≡ keep_last 4 (contents wrapped ++ (8 ∷ 9 ∷ []))
contents-write_example = contents-write (8 ∷ 9 ∷ []) (record { head_in = inl (omega arith) })

snapshot-run_example :
    (bytes_of (snapshot (run (new 4) script)) ≡ keep_last 4 (history [] script))
    × ((snapshot (run (new 4) script) ≡ none) ↔ (history [] script ≡ []))
snapshot-run_example = snapshot-run 4 script (omega arith)
