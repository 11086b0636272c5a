-- ===== src/Shell/Session/Tests.antt =====
-- A session at concrete inputs.
use scomp_agent.Common.{ℕ, ◌≡◌, refl, true, List, [], ◌∷◌, ◌++◌, take, text}
use scomp_agent.Stream
use scomp_agent.Shell.Session.{new_session, key_queue, set_size, write, resize, close, take_key}
use scomp_agent.Shell.Session.Valid.{
  run, Valid, Op, type_in, resize_to, read_key, close_up, put, apply, decoded, run_bounds,
}

abbrev no_chan : ℕ → Stream.Chan
no_chan c = record { cap = 0; received = []; waiting = []; overflows = 0 }

abbrev script : List Op
script = resize_to 0 9000 ∷ type_in (text "ls\n") ∷ read_key ∷ put (text "x") ∷ close_up ∷ []

size-script :
    let s = run (new_session 700 0 no_chan) script in
    (s.cols ≡ 80) × (s.rows ≡ 200) × (s.resized ≡ true)
unfolding run apply write resize take_key close new_session set_size
size-script = (refl, refl, refl)

run_bounds_example :
    let s = run (new_session 700 0 no_chan) script in
    Valid s × ((write (text "pwd") s).keys ≡ take key_queue (s.keys ++ decoded s (text "pwd")))
run_bounds_example = run_bounds 700 0 no_chan script (text "pwd")
