-- ===== src/Ring/Window.antt =====
-- The copies of `Write`, on a buffer that is cut at the next write position.
use scomp_agent.Common.{
  ◌-◌, min, ◌≡◌, refl, ap, ◌∙◌, ◌≢◌, Bool, true, [], ◌++◌, append-nil, append_assoc, arith,
  if◌then◌else◌, Bytes, length, drop, length-append, take_prefix, drop_prefix, eq-nil_of_length,
  copy, copy_at, copy_over, copy_cut, copy_at-append,
}
use scomp_agent.Ring.{Buffer, write_tail, write_wrapped}
use scomp_agent.Ring.Contents.{contents}

-- The ring whose buffer is `a ++ b` and whose next write goes to the seam.
abbrev pub seam : Bytes → Bytes → Bool → Buffer
seam a b f = record { buf = a ++ b; head = length a; full = f }

pub contents-seam : (a b : Bytes) (f : Bool) → contents (seam a b f) ≡ (if f then b ++ a else a)
contents-seam a b f =
    ground (arith, take_prefix {0} (length a) a b refl, drop_prefix {0} (length a) a b refl)

-- `p` covers `b` and leaves `c`, which is not empty.
pub write_tail_short :
    (a b c p : Bytes) (f : Bool)
    → length b ≡ length p
    → c ≢ []
    → write_tail (seam a (b ++ c) f) p ≡ seam (a ++ p) c f
unfolding write_tail
write_tail_short a b c p f h ne = ground (
  arith,
  copy_at-append {0} a (b ++ c) (length a) p refl,
  copy_over b p c h,
  length-append {0} a (b ++ c),
  length-append {0} b c,
  length-append {0} a p,
  append_assoc a p c,
  eq-nil_of_length {0} c,
)

-- `p` covers the buffer up to its end.
pub write_tail_exact :
    (a b p : Bytes) (f : Bool)
    → length b ≡ length p
    → write_tail (seam a b f) p ≡ record { buf = a ++ p; head = 0; full = true }
unfolding write_tail
write_tail_exact a b p f h = ground (
  arith,
  copy_at-append {0} a b (length a) p refl,
  copy_over b p [] h,
  append-nil b,
  append-nil p,
  length-append {0} a b,
)

-- `p` is `q ++ t`: `q` covers the end of the buffer, and `t` the part `a` at its start.
pub write_wrapped_lem :
    (a c b q t : Bytes) (f : Bool)
    → length b ≡ length q
    → length a ≡ length t
    → write_wrapped (seam (a ++ c) b f) (q ++ t) ≡ seam t (c ++ q) true
unfolding write_wrapped
write_wrapped_lem a c b q t f hb ha = rw (n, first, rest, second, left)
  where
    n : min (length (q ++ t)) (length ((a ++ c) ++ b) - length (a ++ c)) ≡ length q
    n = omega (arith, length-append {0} q t, length-append {0} (a ++ c) b)

    first : copy_at ((a ++ c) ++ b) (length (a ++ c)) (q ++ t) ≡ (a ++ c) ++ q
    first = copy_at-append (a ++ c) b _ (q ++ t) refl ∙ ap (λ x. (a ++ c) ++ x) (copy_cut b q t hb)

    rest : drop (length q) (q ++ t) ≡ t
    rest = drop_prefix (length q) q t refl

    second : copy ((a ++ c) ++ q) t ≡ t ++ (c ++ q)
    second = rw append_assoc (copy_over a t (c ++ q) ha)

    left : length (q ++ t) - length q ≡ length t
    left = omega (arith, length-append {0} q t)
