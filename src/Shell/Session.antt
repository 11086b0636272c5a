-- ===== src/Shell/Session.antt =====
-- fakeshell/session.go: `Session`, the terminal that the agent relays, less the goroutine that
-- runs the program.
pub mod Valid
mod Tests
use scomp_agent.Common.{
  ℕ, ◌+◌, ◌-◌, ◌*◌, min, Bool, true, false, List, [], ◌∷◌, ◌++◌, ltb, ◌==◌, if◌then◌else◌, Bytes,
  length, take, drop, set,
}
use scomp_agent.Stream.{Stream}
use scomp_agent.Stream
use scomp_agent.Term.Decoder.{Decoder, feed}
use scomp_agent.Term.Decoder

abbrev pub ring_size : ℕ
ring_size = 256 * 1024

abbrev pub key_queue : ℕ
key_queue = 1024

abbrev pub max_input_bytes : ℕ
max_input_bytes = 64 * 1024

-- `keys` are those that wait in the channel; `resized` and `done` tell whether the channel of that
-- name holds an item and whether it is closed.
pub record Session : Type 0 where
  pub stream : Stream
  pub keys : List ℕ
  pub resized : Bool
  pub dec : Decoder
  pub cols : ℕ
  pub rows : ℕ
  pub done : Bool

unfoldable pub set_size : ℕ → ℕ → Session → Session
set_size cols rows s = record s {
  cols = if cols == 0 then 80 else min cols 500;
  rows = if rows == 0 then 24 else min rows 200;
}

-- The loop of `Write` over the keys.
unfoldable pub push_keys : List ℕ → List ℕ → List ℕ
push_keys queue [] = queue
push_keys queue (k ∷ ks) =
    let rest = push_keys (queue ++ k ∷ []) ks in
    if ltb (length queue) key_queue then rest else queue

unfoldable pub write : Bytes → Session → Session
unfolding push_keys
write input s =
    let (ks, dec) =
      feed s.dec
        (if ltb max_input_bytes (length input) then take max_input_bytes input else input) in
    record s { dec = dec; keys = push_keys s.keys ks }

unfoldable pub resize : ℕ → ℕ → Session → Session
unfolding set_size
resize cols rows s = record (set_size cols rows s) { resized = true }

unfoldable pub close : Session → Session
close s = record s { done = true }

-- The session that `NewSession` makes, before its size is set; `chans` are the channels that the
-- stream may be given.
abbrev pub blank : (ℕ → Stream.Chan) → Session
blank chans = record {
  stream = Stream.new ring_size chans;
  keys = [];
  resized = false;
  dec = Decoder.fresh;
  cols = 0;
  rows = 0;
  done = false;
}

unfoldable pub new_session : ℕ → ℕ → (ℕ → Stream.Chan) → Session
unfolding set_size
new_session cols rows chans = set_size cols rows (blank chans)

-- The program takes a key, or the news of a resize.
unfoldable pub take_key : Session → Session
take_key s = record s { keys = drop 1 s.keys }

unfoldable pub take_resized : Session → Session
take_resized s = record s { resized = false }
