-- ===== src/Ring.antt =====
-- internal/ring/ring.go, the circular byte buffer.
pub mod Contents
mod Window
pub mod Keeps
pub mod Replay
mod Tests
use scomp_agent.Common.{
  ℕ, ◌+◌, ◌-◌, Bool, true, false, not, ◌&&◌, Option, none, some, Bytes, length, take, drop,
  replicate, copy_at, min, leb, ◌==◌, if◌then◌else◌, ◌^◌,
}

-- The mutex has no field: each method runs under it from its first read to its last write.
pub record Buffer : Type 0 where
  pub buf : Bytes
  pub head : ℕ
  pub full : Bool

abbrev pub default_size : ℕ
default_size = 2 ^ 20

pub new : ℕ → Buffer
new size = record { buf = replicate size 0; head = 0; full = false }

-- `p` is shorter than the buffer and fits between `head` and its end.
pub write_tail : Buffer → Bytes → Buffer
write_tail b p =
    let b' = record b { buf = copy_at b.buf b.head p; head = b.head + length p } in
    if b'.head == length b.buf then record b' { head = 0; full = true } else b'

-- The branch that goes on at the start of the buffer; `n` is what the first `copy` returns.
pub write_wrapped : Buffer → Bytes → Buffer
write_wrapped b p =
    let n = min (length p) (length b.buf - b.head) in
    record { buf = copy_at (copy_at b.buf b.head p) 0 (drop n p); head = length p - n; full = true }

unfoldable pub write : Buffer → Bytes → Buffer
unfolding write_tail write_wrapped
write b p =
    let size = length b.buf in
    if length p == 0
    then b
    else if size == 0
    then b
    else if leb size (length p)
    then record { buf = copy_at b.buf 0 (drop (length p - size) p); head = 0; full = true }
    else if leb (length p) (size - b.head)
    then write_tail b p
    else write_wrapped b p

-- `none` is Go's nil slice.
pub snapshot : Buffer → Option Bytes
snapshot b =
    if b.head == 0 && not b.full
    then none
    else if not b.full
    then some (copy_at (replicate b.head 0) 0 (take b.head b.buf))
    else let out = replicate (length b.buf) 0 in
      let n = min (length out) (length b.buf - b.head) in
      some (copy_at (copy_at out 0 (drop b.head b.buf)) n (take b.head b.buf))

pub reset : Buffer → Buffer
reset b = record b { head = 0; full = false }
