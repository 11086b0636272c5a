-- ===== src/Shell/Tty/Tests.antt =====
-- The terminal's output at concrete inputs.
use scomp_agent.Common.{
  ℕ, ◌≡◌, refl, true, false, some, List, [], ◌∷◌, arith, Bytes, keep_last, text,
}
use scomp_agent.Stream
use scomp_agent.Stream.{new, snapshot}
use scomp_agent.Term.Keys.{key_ctrl_c}
use scomp_agent.Shell.Tty.{write, fresh, crlf, translate, elapsed, key, sleep}
use scomp_agent.Shell.Tty.Newlines.{
  snapshot-write_all, for_terminal, lines, rejoined, ends_cr, write_all, concat,
}

abbrev no_chan : ℕ → Stream.Chan
no_chan c = record { cap = 0; received = []; waiting = []; overflows = 0 }

translate-cut :
    (translate (record { at_line_start = false; last_cr = true }) (text "\na\n")).0 ≡ text "\na\r\n"
unfolding translate crlf
translate-cut = refl

sleep-interrupted :
    (sleep (fresh, new 8 no_chan) (key b'x' ∷ key key_ctrl_c ∷ elapsed ∷ []))
    ≡ some (false, write (fresh, new 8 no_chan) (text "^C\n"), elapsed ∷ [])
unfolding sleep
sleep-interrupted = refl

abbrev chunks : List Bytes
chunks = text "one\r" ∷ text "\ntwo" ∷ [] ∷ text "\n" ∷ []

snapshot-write_all_example :
    snapshot (write_all (fresh, new 6 no_chan) chunks).1
    ≡ keep_last 6 (for_terminal (concat chunks))
snapshot-write_all_example = snapshot-write_all 6 no_chan chunks (omega arith)

for_terminal-chunks : for_terminal (concat chunks) ≡ text "one\r\ntwo\r\n"
unfolding lines rejoined ends_cr concat
for_terminal-chunks = refl
