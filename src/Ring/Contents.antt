-- ===== src/Ring/Contents.antt =====
-- What a ring holds, oldest byte first, and the invariant of its fields.
use scomp_agent.Common.{
  ℕ, ◌-◌, ◌≤◌, ◌<◌, min, ◌≡◌, refl, ◌⊎◌, inr, [], ◌++◌, arith, if◌then◌else◌, Bytes, length, take,
  drop, length-append, length-take, length-drop, length-replicate, copy_at, length-copy_at,
}
use scomp_agent.Ring.{Buffer, new, write, reset}

-- `head` stays inside the buffer; a ring of size 0 never moves.
pub record IsValid (b : Buffer) : Type 0 where
  pub head_in : (b.head < length b.buf) ⊎ (b.head ≡ 0)

abbrev pub contents : Buffer → Bytes
contents b = if b.full then drop b.head b.buf ++ take b.head b.buf else take b.head b.buf

pub new-IsValid : (size : ℕ) → IsValid (new size)
unfolding new
new-IsValid size = record { head_in = inr refl }

pub size-new : (size : ℕ) → length (new size).buf ≡ size
unfolding new
size-new size = length-replicate size _

pub contents-new : (size : ℕ) → contents (new size) ≡ []
unfolding new
contents-new size = refl

pub reset-IsValid : (b : Buffer) → IsValid (reset b)
unfolding reset
reset-IsValid b = record { head_in = inr refl }

pub contents-reset : (b : Buffer) → contents (reset b) ≡ []
unfolding reset
contents-reset b = refl

pub size-reset : (b : Buffer) → length (reset b).buf ≡ length b.buf
unfolding reset
size-reset b = refl

pub size-write : (b : Buffer) (p : Bytes) → length (write b p).buf ≡ length b.buf
unfolding write
size-write b p = ground (
  arith,
  length-copy_at {0} b.buf 0 (drop (length p - length b.buf) p),
  length-copy_at {0} b.buf b.head p,
  length-copy_at {0} (copy_at b.buf b.head p) 0 (drop (min (length p) (length b.buf - b.head)) p),
)

pub write-IsValid : {b : Buffer} (p : Bytes) → IsValid b → IsValid (write b p)
unfolding write
write-IsValid {b} p v = ground (
  arith,
  length-copy_at {0} b.buf 0 (drop (length p - length b.buf) p),
  length-copy_at {0} b.buf b.head p,
  length-copy_at {0} (copy_at b.buf b.head p) 0 (drop (min (length p) (length b.buf - b.head)) p),
)

pub length-contents : {b : Buffer} → IsValid b → length (contents b) ≤ length b.buf
length-contents {b} v = ground (
  arith,
  length-append {0} (drop b.head b.buf) (take b.head b.buf),
  length-take {0} b.head b.buf,
  length-drop {0} b.head b.buf,
)
