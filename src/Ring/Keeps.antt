-- ===== src/Ring/Keeps.antt =====
-- `Write` against a plain description: the ring holds the last bytes of what was written to it.
use scomp_agent.Common.{
  ℕ, ◌+◌, ◌-◌, ◌≤◌, ◌<◌, ◌≡◌, sym, ap, ◌∙◌, ◌≢◌, inl, inr, Bool, true, false, [], ◌∷◌, ◌++◌,
  append-nil, append_assoc, arith, leb, ◌==◌, if◌then◌else◌, le→leb, lt→leb, Bool-cases, Bytes,
  length, take, drop, length-append, length-take, length-drop, take-append-drop, eq-nil_of_length,
  copy, keep_last, copy_cut, keep_last-append, keep_last_all, length-keep_last,
}
use mathlib.Core.Path.{subst}
use native.Mathlib.Decide.{dec_le}
use scomp_agent.Ring.{Buffer, write, write_tail, write_wrapped}
use scomp_agent.Ring.Contents.{IsValid, contents, length-contents, size-write, write-IsValid}
use scomp_agent.Ring.Window.{
  seam, contents-seam, write_tail_short, write_tail_exact, write_wrapped_lem,
}

-- What `Write` has to leave in the ring `r`.
abbrev Keeps : Buffer → Bytes → Type 0
Keeps r p = contents (write r p) ≡ keep_last (length r.buf) (contents r ++ p)

write_small :
    (r : Buffer) (p : Bytes)
    → p ≢ []
    → length p < length r.buf
    → write r p
      ≡ (if leb (length p) (length r.buf - r.head) then write_tail r p else write_wrapped r p)
unfolding write
write_small r p ne lt = ground (arith, eq-nil_of_length {0} p)

abbrev held : Bytes → Bytes → Bool → Bytes
held a b f = if f then b ++ a else a

-- It is enough to follow `write` on the two halves of the buffer.
Keeps-of_held :
    (a b p kept : Bytes) (f : Bool)
    → contents (write (seam a b f) p) ≡ kept
    → kept ≡ keep_last (length (a ++ b)) (held a b f ++ p)
    → Keeps (seam a b f) p
Keeps-of_held a b p kept f e h =
    e ∙ h ∙ sym (ap (λ x. keep_last (length (a ++ b)) (x ++ p)) (contents-seam a b f))

module _ (a b c p : Bytes) (h : length b ≡ length p) where
  sizes : length (a ++ (b ++ c)) ≡ length a + (length p + length c)
  sizes = omega (arith, h, length-append {0} a (b ++ c), length-append {0} b c)

  fits : leb (length p) (length (a ++ (b ++ c)) - length a) ≡ true
  fits = le→leb _ _ (omega (arith, sizes))

  Keeps-short : (f : Bool) → p ≢ [] → c ≢ [] → Keeps (seam a (b ++ c) f) p
  Keeps-short f np nc =
      Keeps-of_held a (b ++ c) p (held (a ++ p) c f) f
        (ap contents {y = seam (a ++ p) c f} stepped ∙ contents-seam (a ++ p) c f) (kept f)
    where
      lt : length p < length (a ++ (b ++ c))
      lt = ground (arith, sizes, eq-nil_of_length {0} c)

      stepped : write (seam a (b ++ c) f) p ≡ seam (a ++ p) c f
      stepped = write_small _ p np lt ∙ rw fits (write_tail_short a b c p f h nc)

      kept :
          (f : Bool)
          → held (a ++ p) c f ≡ keep_last (length (a ++ (b ++ c))) (held a (b ++ c) f ++ p)
      kept true = simp append_assoc (
          sym (
            keep_last-append _ b _
              (omega (arith, sizes, length-append {0} c (a ++ p), length-append {0} a p))))
      kept false = sym (keep_last_all _ _ (omega (arith, sizes, length-append {0} a p)))

Keeps-exact :
    (a b p : Bytes) (f : Bool) → length b ≡ length p → p ≢ [] → a ≢ [] → Keeps (seam a b f) p
Keeps-exact a b p f h np na =
    Keeps-of_held a b p (a ++ p) f (ap contents {y = done} stepped ∙ append-nil (a ++ p)) (kept f)
  where
    done : Buffer
    done = record { buf = a ++ p; head = 0; full = true }

    lt : length p < length (a ++ b)
    lt = ground (arith, length-append {0} a b, eq-nil_of_length {0} a)

    stepped : write (seam a b f) p ≡ done
    stepped =
        write_small _ p np lt
        ∙ rw (le→leb (length p) (length (a ++ b) - length a) (omega (arith, length-append {0} a b)))
            (write_tail_exact a b p f h)

    kept : (f : Bool) → a ++ p ≡ keep_last (length (a ++ b)) (held a b f ++ p)
    kept true =
        rw append_assoc (
          sym
            (keep_last-append _ b _ (omega (arith, length-append {0} a p, length-append {0} a b))))
    kept false =
        sym (keep_last_all _ _ (omega (arith, length-append {0} a p, length-append {0} a b)))

Keeps-wrapped :
    (a c b q t : Bytes) (f : Bool)
    → length b ≡ length q
    → length a ≡ length t
    → c ≢ []
    → t ≢ []
    → Keeps (seam (a ++ c) b f) (q ++ t)
Keeps-wrapped a c b q t f hb ha nc nt =
    Keeps-of_held (a ++ c) b (q ++ t) ((c ++ q) ++ t) f
      (ap contents {y = seam t (c ++ q) true} stepped ∙ contents-seam t (c ++ q) true) (kept f)
  where
    sum : length ((a ++ c) ++ b) ≡ length t + length c + length q
    sum = omega (arith, length-append {0} (a ++ c) b, length-append {0} a c)

    lens : length (q ++ t) ≡ length q + length t
    lens = length-append q t

    nq : q ++ t ≢ []
    nq e = nt (eq-nil_of_length t (omega (arith, lens, ap (length {A = ℕ}) e)))

    lt : length (q ++ t) < length ((a ++ c) ++ b)
    lt = ground (arith, sum, lens, eq-nil_of_length {0} c)

    over : leb (length (q ++ t)) (length ((a ++ c) ++ b) - length (a ++ c)) ≡ false
    over = lt→leb _ _ (ground (arith, sum, lens, length-append {0} a c, eq-nil_of_length {0} t))

    stepped : write (seam (a ++ c) b f) (q ++ t) ≡ seam t (c ++ q) true
    stepped = write_small _ _ nq lt ∙ rw over (write_wrapped_lem a c b q t f hb ha)

    new_size : length (c ++ (q ++ t)) ≡ length ((a ++ c) ++ b)
    new_size = omega (arith, sum, lens, length-append {0} c (q ++ t))

    kept :
        (f : Bool)
        → (c ++ q) ++ t ≡ keep_last (length ((a ++ c) ++ b)) (held (a ++ c) b f ++ (q ++ t))
    kept true =
        append_assoc c q t
        ∙ sym (keep_last-append _ (b ++ a) (c ++ (q ++ t)) new_size)
        ∙ ap (keep_last (length ((a ++ c) ++ b))) (simp append_assoc)
    kept false =
        append_assoc c q t
        ∙ sym (keep_last-append _ a (c ++ (q ++ t)) new_size)
        ∙ ap (keep_last (length ((a ++ c) ++ b))) (simp append_assoc)

-- A write that is at least as long as the buffer leaves its own last bytes.
Keeps-long :
    (r : Buffer) (p : Bytes) → p ≢ [] → 0 < length r.buf → length r.buf ≤ length p → Keeps r p
Keeps-long r p np pos h =
    ap contents {y = done} (stepped np) ∙ append-nil (copy r.buf last) ∙ copied ∙ kept
  where
    last : Bytes
    last = drop (length p - length r.buf) p

    lens : length last ≡ length r.buf
    lens = omega (arith, length-drop {0} (length p - length r.buf) p)

    done : Buffer
    done = record { buf = copy r.buf last; head = 0; full = true }

    stepped : p ≢ [] → write r p ≡ done
    stepped ne = unfold write in ground (arith, eq-nil_of_length {0} p)

    copied : copy r.buf last ≡ last
    copied = ap (copy r.buf) (sym (append-nil last)) ∙ copy_cut r.buf last [] (sym lens)

    split : (contents r ++ take (length p - length r.buf) p) ++ last ≡ contents r ++ p
    split =
        append_assoc (contents r) _ last
        ∙ ap (λ x. contents r ++ x) (take-append-drop (length p - length r.buf) p)

    kept : last ≡ keep_last (length r.buf) (contents r ++ p)
    kept =
        sym (keep_last-append _ (contents r ++ take (length p - length r.buf) p) last lens)
        ∙ ap (keep_last (length r.buf)) split

Keeps-cut :
    (a b c p : Bytes) (f : Bool)
    → length b ≡ length p
    → p ≢ []
    → length p < length a + length (b ++ c)
    → Keeps (seam a (b ++ c) f) p
Keeps-cut a b [] p f h np lt = rw append-nil (
    Keeps-exact a b p f h np
      (λ e. absurd (omega (arith, ap (length {A = ℕ}) e, length-append {0} b []))))
Keeps-cut a b (x ∷ c) p f h np lt = Keeps-short a b (x ∷ c) p h f np (λ e. cc)

-- Writes shorter than the buffer: the halves are cut where the copies end.
Keeps-tail :
    (a b p : Bytes) (f : Bool)
    → p ≢ []
    → length p < length a + length b
    → length p ≤ length b
    → Keeps (seam a b f) p
Keeps-tail a b p f np lt le =
    subst (λ x. Keeps (seam a x f) p) (take-append-drop (length p) b)
      (Keeps-cut a (take (length p) b) (drop (length p) b) p f
        (omega (arith, length-take {0} (length p) b)) np
        (omega (arith, ap (length {A = ℕ}) (take-append-drop {0} (length p) b))))

Keeps-around :
    (a b p : Bytes) (f : Bool)
    → length p < length a + length b
    → length b < length p
    → Keeps (seam a b f) p
Keeps-around a b p f lt over =
    subst (λ x. Keeps (seam x b f) p) (take-append-drop (length t) a)
      (subst (λ x. Keeps (seam (take (length t) a ++ drop (length t) a) b f) x)
        (take-append-drop (length b) p)
        (Keeps-wrapped (take (length t) a) (drop (length t) a) b (take (length b) p) t f
          (omega (arith, length-take {0} (length b) p))
          (omega (arith, tail, length-take {0} (length t) a))
          (λ e. absurd (omega (arith, tail, ap (length {A = ℕ}) e, length-drop {0} (length t) a)))
          (λ e. absurd (omega (arith, tail, ap (length {A = ℕ}) e)))))
  where
    t : Bytes
    t = drop (length b) p

    tail : length t ≡ length p - length b
    tail = length-drop (length b) p

Keeps-seam : (a b p : Bytes) (f : Bool) → 0 < length b → Keeps (seam a b f) p
Keeps-seam a b [] f pos =
    unfold write in
    rw append-nil (
      sym (
        keep_last_all _ _ (
          length-contents {b = seam a b f}
            (record { head_in = inl (omega (arith, length-append {0} a b)) }))))
Keeps-seam a b (x ∷ p) f pos = elim (dec_le (length (a ++ b)) (length (x ∷ p))) [
  | yes long ↦ Keeps-long (seam a b f) (x ∷ p) ne (omega (arith, sum)) long
  | no short ↦ elim (dec_le (length (x ∷ p)) (length b)) [
    | yes fits ↦ Keeps-tail a b (x ∷ p) f ne (omega (arith, sum)) fits
    | no over ↦ Keeps-around a b (x ∷ p) f (omega (arith, sum)) (omega arith)
  ]
]
  where
    sum : length (a ++ b) ≡ length a + length b
    sum = length-append a b

    ne : x ∷ p ≢ []
    ne e = cc

-- After `Write` a valid ring holds the last bytes, as many as fit, of what it held followed by
-- what was written.
pub contents-write :
    {r : Buffer} (p : Bytes)
    → IsValid r
    → contents (write r p) ≡ keep_last (length r.buf) (contents r ++ p)
contents-write {r} p v = elim (Bool-cases (length r.buf == 0)) [
  | inl empty ↦
      let none_held : length r.buf ≡ 0 = ground arith in
      eq-nil_of_length _ (omega (arith, size-write r p, length-contents (write-IsValid p v)))
      ∙ sym (
          eq-nil_of_length _ (omega (arith, length-keep_last {0} (length r.buf) (contents r ++ p))))
  | inr some_held ↦
      let inside : r.head < length r.buf = ground (arith, v.head_in) in
      subst (λ x. Keeps x p) (halves inside)
        (Keeps-seam (take r.head r.buf) (drop r.head r.buf) p r.full
          (omega (arith, length-drop {0} r.head r.buf)))
]
  where
    halves : r.head < length r.buf → seam (take r.head r.buf) (drop r.head r.buf) r.full ≡ r
    halves h =
        let at : length (take r.head r.buf) ≡ r.head =
          omega (arith, length-take {0} r.head r.buf) in
        λ i. record { buf = take-append-drop r.head r.buf i; head = at i; full = r.full }
