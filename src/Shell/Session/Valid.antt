-- ===== src/Shell/Session/Valid.antt =====
-- The bounds that every state of a session keeps.
use scomp_agent.Common.{
  ℕ, ◌≤◌, ◌≡◌, refl, sym, ap, ◌∙◌, inl, inr, List, [], ◌∷◌, ◌++◌, append-nil, append_assoc, arith,
  ltb, if◌then◌else◌, ltb→lt, ltb→le, Bool-cases, Bytes, length, take, length-append, length-take,
  length-drop, take_prefix, take_all,
}
use scomp_agent.Stream
use scomp_agent.Stream.{emit, emit_reset}
use scomp_agent.Term.Decoder.{feed}
use scomp_agent.Shell.Session.{
  blank, Session, key_queue, max_input_bytes, set_size, push_keys, write, resize, close,
  new_session, take_key, take_resized,
}

-- The room in the queue, and the largest window.
pub record Valid (s : Session) : Type 0 where
  pub queue_fits : length s.keys ≤ key_queue
  pub cols_in : (1 ≤ s.cols) × (s.cols ≤ 500)
  pub rows_in : (1 ≤ s.rows) × (s.rows ≤ 200)

-- What a client, the program and the agent do to a session.
pub data Op : Type 0 where
  type_in : Bytes → Op
  resize_to : ℕ → ℕ → Op
  read_key read_resized close_up : Op
  put redraw : Bytes → Op

unfoldable pub apply : Session → Op → Session
unfolding write resize take_key take_resized close
apply s (type_in input) = write input s
apply s (resize_to cols rows) = resize cols rows s
apply s read_key = take_key s
apply s read_resized = take_resized s
apply s close_up = close s
apply s (put p) = record s { stream = emit s.stream p }
apply s (redraw p) = record s { stream = emit_reset s.stream p }

unfoldable pub run : Session → List Op → Session
run s [] = s
run s (op ∷ ops) = run (apply s op) ops

push_keys-take :
    (queue ks : List ℕ)
    → length queue ≤ key_queue
    → push_keys queue ks ≡ take key_queue (queue ++ ks)
unfolding push_keys
push_keys-take queue [] h =
    sym (append-nil queue)
    ∙ sym (take_all key_queue (queue ++ []) (omega (arith, h, length-append {0} queue [])))
push_keys-take queue (k ∷ ks) h = elim (Bool-cases (ltb (length queue) key_queue)) [
  | inl room ↦ rw room (
      push_keys-take (queue ++ k ∷ []) ks
        (omega (arith, ltb→lt (length queue) key_queue room, length-append {0} queue (k ∷ [])))
      ∙ ap (take key_queue) (append_assoc queue (k ∷ []) ks))
  | inr full ↦ rw full (
      sym (
        take_prefix key_queue queue (k ∷ ks)
          (omega (arith, h, ltb→le (length queue) key_queue full))))
]

set_size-Valid :
    (cols rows : ℕ) (s : Session) → length s.keys ≤ key_queue → Valid (set_size cols rows s)
unfolding set_size
set_size-Valid cols rows s h = record {
  queue_fits = h;
  cols_in = ground arith;
  rows_in = ground arith;
}

-- What `Write` decodes of a message.
unfoldable pub decoded : Session → Bytes → List ℕ
decoded s input = (feed s.dec (take max_input_bytes input)).0

keys-write :
    (s : Session) (input : Bytes)
    → Valid s
    → (write input s).keys ≡ take key_queue (s.keys ++ decoded s input)
unfolding write decoded
keys-write s input v =
    push_keys-take s.keys _ v.queue_fits
    ∙ ap (λ p. take key_queue (s.keys ++ (feed s.dec p).0)) (cut input)
  where
    cut :
        (p : Bytes)
        → (if ltb max_input_bytes (length p) then take max_input_bytes p else p)
          ≡ take max_input_bytes p
    cut p = elim (Bool-cases (ltb max_input_bytes (length p))) [
      | inl b ↦ rw b refl
      | inr b ↦ rw b (sym (take_all max_input_bytes p (ltb→le max_input_bytes (length p) b)))
    ]

apply-Valid : (s : Session) (op : Op) → Valid s → Valid (apply s op)
unfolding apply resize take_key take_resized close write
apply-Valid s (type_in input) v = record {
  queue_fits = omega (
    arith,
    ap (length {A = ℕ}) (keys-write s input v),
    length-take {0} key_queue (s.keys ++ decoded s input),
  );
  cols_in = v.cols_in;
  rows_in = v.rows_in;
}
apply-Valid s (resize_to cols rows) v =
    let w = set_size-Valid cols rows s v.queue_fits in
    record { queue_fits = w.queue_fits; cols_in = w.cols_in; rows_in = w.rows_in }
apply-Valid s read_key v = record {
  queue_fits = omega (arith, v.queue_fits, length-drop {0} 1 s.keys);
  cols_in = v.cols_in;
  rows_in = v.rows_in;
}
apply-Valid s read_resized v = record {
  queue_fits = v.queue_fits;
  cols_in = v.cols_in;
  rows_in = v.rows_in;
}
apply-Valid s close_up v = record {
  queue_fits = v.queue_fits;
  cols_in = v.cols_in;
  rows_in = v.rows_in;
}
apply-Valid s (put p) v = record {
  queue_fits = v.queue_fits;
  cols_in = v.cols_in;
  rows_in = v.rows_in;
}
apply-Valid s (redraw p) v = record {
  queue_fits = v.queue_fits;
  cols_in = v.cols_in;
  rows_in = v.rows_in;
}

run-Valid : (s : Session) (ops : List Op) → Valid s → Valid (run s ops)
unfolding run
run-Valid s [] v = v
run-Valid s (op ∷ ops) v = run-Valid (apply s op) ops (apply-Valid s op v)

-- Whatever a client sends and whatever window it asks for, a session has at most 1024 keys waiting
-- and a window of 1 to 500 columns and 1 to 200 rows. In every state it comes to, input adds the
-- keys decoded from its first 64 KiB behind those that wait, and only what is beyond 1024 is lost.
pub run_bounds :
    (cols rows : ℕ) (chans : ℕ → Stream.Chan) (ops : List Op) (input : Bytes)
    → let s = run (new_session cols rows chans) ops in
      Valid s × ((write input s).keys ≡ take key_queue (s.keys ++ decoded s input))
unfolding new_session
run_bounds cols rows chans ops input =
    let v =
      run-Valid (new_session cols rows chans) ops
        (set_size-Valid cols rows (blank chans) (omega arith)) in
    (v, keys-write _ input v)
