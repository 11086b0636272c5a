-- ===== src/Agent/Pairing/Tests.antt =====
-- The pairing prompt at concrete inputs.
use scomp_agent.Common.{suc, ◌≡◌, refl, true, some, List, [], ◌∷◌, ◌++◌, arith, text}
use scomp_agent.Agent.Pairing.{
  asked, replaced, submitted, not_submitted, new, connected, request, send_by, send, prompt_for,
  take_from, take_request, report, type_line, Op, connect, disconnect, ask, line, tick, apply, run,
}
use scomp_agent.Agent.Pairing.Once.{ids, Sublist, asked_for, run-Sublist}
use scomp_agent.Agent.Pairing.Ends.{run_ends, TakenBy, NoneTaken}
use scomp_agent.Agent.Pairing.Sender.{connects, OnlyOlderEnd, run_keeps_sender}
use scomp_agent.Strings.{is_nil, trim_left, trim_right, trim_space}
use scomp_agent.Term.Line.{is_space}

-- Two requests, of which the second replaces the first, a line without a connection, and a third
-- request that is answered.
abbrev script : List Op
script =
    ask (text "a")
    ∷ ask (text "b")
    ∷ Op.take 5
    ∷ Op.take 6
    ∷ line (text "1234\n") true
    ∷ connect
    ∷ ask (text "c")
    ∷ Op.take 9
    ∷ line (text " 5678 \n") true
    ∷ line (text "9\n") true
    ∷ []

sent-script : (run 120 new script).sent ≡ (1, text "c", text "5678") ∷ []
unfolding run apply request take_request take_from prompt_for type_line send send_by report
    trim_space trim_left trim_right connected is_space
sent-script = refl

out-script :
    (run 120 new script).out ≡ asked ∷ replaced ∷ asked ∷ not_submitted ∷ asked ∷ submitted ∷ []
unfolding run apply request take_request take_from prompt_for type_line send send_by report
    trim_space trim_left trim_right connected is_space
out-script = refl

run-Sublist_example : Sublist (ids (run 120 new script).sent) (asked_for script)
run-Sublist_example = run-Sublist 120 script

run_ends_example :
    (is_nil (run 120 new (script ++ tick 200 ∷ line (text "1\n") true ∷ [])).pair_id ≡ true)
    × ((run 120 new (script ++ tick 200 ∷ line (text "1\n") true ∷ [])).sent
        ≡ (run 120 new script).sent)
unfolding TakenBy NoneTaken
run_ends_example =
    run_ends 120 9 200 script (line (text "1\n") true ∷ [])
      (omega arith, (omega arith, (omega arith, tt))) (omega arith) tt

run_keeps_sender_example :
    (run 120 new (script ++ connect ∷ disconnect 1 ∷ [])).submit ≡ some (suc (connects script))
unfolding connects OnlyOlderEnd
run_keeps_sender_example =
    run_keeps_sender 120 script (disconnect 1 ∷ []) (omega arith) (omega arith, tt)
