-- ===== src/Shell/Date/Composite.antt =====
-- Directives that stand for several others.
use scomp_agent.Common.{
  ℕ, suc, ◌+◌, ◌-◌, ◌/◌, ◌%◌, ◌≤◌, ◌≡◌, refl, sym, ap, ◌∙◌, inl, inr, Bool, true, false, not, ◌&&◌,
  [], ◌∷◌, ◌++◌, append-nil, append_assoc, arith, ◌==◌, Bool-cases, Bytes, length, length-append,
  text,
}
use scomp_agent.Shell.Date.{Civil, directive, strftime, colon_zone, zeros, padded}
use scomp_agent.Term.Render.{decimal, decimal_from}

-- The format ends behind a directive, and what follows it cannot change that.
unfoldable pub complete : Bytes → Bool
complete [] = true
complete (c ∷ []) = not (c == b'%')
complete (c ∷ d ∷ []) = elim (c == b'%') [ true ↦ not (d == b':') | false ↦ complete (d ∷ []) ]
complete (c ∷ d ∷ e ∷ s) = elim (c == b'%') [
  | true ↦ elim (d == b':' && e == b'z') [ true ↦ complete s | false ↦ complete (e ∷ s) ]
  | false ↦ complete (d ∷ e ∷ s)
]

strftime_plain :
    (t : Civil) (c : ℕ) (g : Bytes) → (c == b'%') ≡ false → strftime t (c ∷ g) ≡ c ∷ strftime t g
unfolding strftime
strftime_plain t c [] h = refl
strftime_plain t c (d ∷ []) h = rw (h, strftime) refl
strftime_plain t c (d ∷ e ∷ s) h = rw (h, strftime) refl

-- A directive that is not the start of `%:z`.
strftime-directive :
    (t : Civil) (c d e : ℕ) (s : Bytes)
    → (c == b'%') ≡ true
    → (d == b':' && e == b'z') ≡ false
    → strftime t (c ∷ d ∷ e ∷ s) ≡ directive t d ++ strftime t (e ∷ s)
unfolding strftime
strftime-directive t c d e s h k = rw (h, k, strftime) refl

strftime_zone :
    (t : Civil) (c d e : ℕ) (s : Bytes)
    → (c == b'%') ≡ true
    → (d == b':' && e == b'z') ≡ true
    → strftime t (c ∷ d ∷ e ∷ s) ≡ colon_zone t ++ strftime t s
unfolding strftime
strftime_zone t c d e s h k = rw (h, k, strftime) refl

strftime_last :
    (t : Civil) (c d : ℕ) (g : Bytes)
    → (c == b'%') ≡ true
    → (d == b':') ≡ false
    → strftime t (c ∷ d ∷ g) ≡ directive t d ++ strftime t g
unfolding strftime
strftime_last t c d [] h k = rw (h, strftime) (sym (append-nil (directive t d)))
strftime_last t c d (e ∷ s) h k = strftime-directive t c d e s h (rw k refl)

strftime-append :
    (t : Civil) (f g : Bytes)
    → complete f ≡ true
    → strftime t (f ++ g) ≡ strftime t f ++ strftime t g
unfolding complete strftime
strftime-append t [] g h = refl
strftime-append t (c ∷ []) g h = strftime_plain t c g (ground (arith, h))
strftime-append t (c ∷ d ∷ []) g h = elim (Bool-cases (c == b'%')) [
  | inl p ↦
      let other : (d == b':') ≡ false = ground (arith, (rw (p, complete) at h)) in
      strftime_last t c d g p other
      ∙ ap (λ x. x ++ strftime t g)
          (sym (strftime_last t c d [] p other ∙ append-nil (directive t d)))
  | inr p ↦
      strftime_plain t c (d ∷ g) p
      ∙ ap (◌∷◌ c) (strftime-append t (d ∷ []) g (rw (p, complete) at h))
      ∙ ap (λ x. x ++ strftime t g) (sym (strftime_plain t c (d ∷ []) p))
]
strftime-append t (c ∷ d ∷ e ∷ s) g h = elim (Bool-cases (c == b'%')) [
  | inl p ↦ elim (Bool-cases (d == b':' && e == b'z')) [
    | inl z ↦
        strftime_zone t c d e (s ++ g) p z
        ∙ ap (λ x. colon_zone t ++ x) (strftime-append t s g (rw (p, z, complete) at h))
        ∙ sym (append_assoc (colon_zone t) (strftime t s) (strftime t g))
        ∙ ap (λ x. x ++ strftime t g) (sym (strftime_zone t c d e s p z))
    | inr z ↦
        strftime-directive t c d e (s ++ g) p z
        ∙ ap (λ x. directive t d ++ x) (strftime-append t (e ∷ s) g (rw (p, z, complete) at h))
        ∙ sym (append_assoc (directive t d) (strftime t (e ∷ s)) (strftime t g))
        ∙ ap (λ x. x ++ strftime t g) (sym (strftime-directive t c d e s p z))
  ]
  | inr p ↦
      strftime_plain t c (d ∷ e ∷ s ++ g) p
      ∙ ap (◌∷◌ c) (strftime-append t (d ∷ e ∷ s) g (rw (p, complete) at h))
      ∙ ap (λ x. x ++ strftime t g) (sym (strftime_plain t c (d ∷ e ∷ s) p))
]

one_digit : (fuel n : ℕ) → 1 ≤ length (decimal_from (suc fuel) n)
unfolding decimal_from
one_digit fuel n =
    ground (arith, length-append {0} (decimal_from fuel (n / 10)) ((b'0' + n % 10) ∷ []))

more_digits :
    (fuel n : ℕ)
    → 10 ≤ n
    → length (decimal_from (suc fuel) n) ≡ length (decimal_from fuel (n / 10)) + 1
unfolding decimal_from
more_digits fuel n h =
    ground (arith, length-append {0} (decimal_from fuel (n / 10)) ((b'0' + n % 10) ∷ []))

-- A number from 1000 on has four digits at least.
four_digits : (n : ℕ) → 1000 ≤ n → 4 ≤ length (decimal n)
unfolding decimal
four_digits n h =
    let fuel : n + 1 ≡ suc (suc (suc (suc (n - 3)))) = omega arith in
    rw fuel (
      omega (
        arith,
        more_digits (suc (suc (suc (n - 3)))) n,
        more_digits (suc (suc (n - 3))) (n / 10),
        more_digits (suc (n - 3)) (n / 10 / 10),
        one_digit (n - 3) (n / 10 / 10 / 10),
      ))

padded_year : (n : ℕ) → 1000 ≤ n → zeros 4 n ≡ decimal n
unfolding padded
padded_year n h =
    let none_missing : 4 - length (decimal n) ≡ 0 = omega (arith, four_digits n h) in
    rw none_missing refl

-- Formats that are to mean the same, by the documentation of `date`; the year of `%F` and `%c` has
-- four digits at least.
pub data Means (t : Civil) : Bytes → Bytes → Type 0 where
  clock : Means t (text "%T") (text "%H:%M:%S")
  clock_locale : Means t (text "%X") (text "%T")
  us_date : Means t (text "%D") (text "%m/%d/%y")
  us_date_locale : Means t (text "%x") (text "%D")
  short_clock : Means t (text "%R") (text "%H:%M")
  clock12 : Means t (text "%r") (text "%I:%M:%S %p")
  short_month : Means t (text "%h") (text "%b")
  iso_date : 1000 ≤ t.year → Means t (text "%F") (text "%Y-%m-%d")
  whole : 1000 ≤ t.year → Means t (text "%c") (text "%a %b %e %T %Y")

Means-complete : (t : Civil) {f g : Bytes} → Means t f g → (complete f ≡ true) × (complete g ≡ true)
unfolding complete
Means-complete t clock = (refl, refl)
Means-complete t clock_locale = (refl, refl)
Means-complete t us_date = (refl, refl)
Means-complete t us_date_locale = (refl, refl)
Means-complete t short_clock = (refl, refl)
Means-complete t clock12 = (refl, refl)
Means-complete t short_month = (refl, refl)
Means-complete t (iso_date h) = (refl, refl)
Means-complete t (whole h) = (refl, refl)

Means-strftime : (t : Civil) {f g : Bytes} → Means t f g → strftime t f ≡ strftime t g
unfolding strftime directive
Means-strftime t clock = simp append_assoc
Means-strftime t clock_locale = refl
Means-strftime t us_date = simp append_assoc
Means-strftime t us_date_locale = refl
Means-strftime t short_clock = simp append_assoc
Means-strftime t clock12 = simp append_assoc
Means-strftime t short_month = refl
Means-strftime t (iso_date h) = rw (padded_year t.year h) (simp append_assoc)
Means-strftime t (whole h) = rw (padded_year t.year h) (simp append_assoc)

-- In a format, `%T` means `%H:%M:%S`, `%X` means `%T`, `%D` means `%m/%d/%y`, `%x` means `%D`, `%R`
-- means `%H:%M`, `%r` means `%I:%M:%S %p`, `%h` means `%b`, and from the year 1000 on `%F` means
-- `%Y-%m-%d` and `%c` means `%a %b %e %T %Y`: each can be replaced by the other, wherever it stands
-- behind text that does not end inside a directive.
pub strftime-Means :
    (t : Civil) (before : Bytes) {f g : Bytes} (behind : Bytes)
    → complete before ≡ true
    → Means t f g
    → strftime t (before ++ (f ++ behind)) ≡ strftime t (before ++ (g ++ behind))
strftime-Means t before {f} {g} behind h m =
    let (cf, cg) = Means-complete t m in
    strftime-append t before (f ++ behind) h
    ∙ ap (λ x. strftime t before ++ x)
        (strftime-append t f behind cf
          ∙ ap (λ x. x ++ strftime t behind) (Means-strftime t m)
          ∙ sym (strftime-append t g behind cg))
    ∙ sym (strftime-append t before (g ++ behind) h)
