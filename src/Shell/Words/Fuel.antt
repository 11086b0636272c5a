-- ===== src/Shell/Words/Fuel.antt =====
-- Splitting a line ends within the fuel that `split` gives it.
use scomp_agent.Common.{
  ℕ, zero, suc, ◌≤◌, ◌≡◌, refl, ◌≢◌, Bool, true, false, ◌||◌, Option, none, some, [], ◌∷◌, arith,
  ◌==◌, if◌then◌else◌, Bytes, length,
}
use scomp_agent.Shell.Words.{
  Env, Expansion, written, refused, take_name, take_braced, braced, Next, go, stop, fail, is_alpha,
  in_name, named, expand, Scan, expanded, escaped, in_single, in_double, unquoted, step, Outcome,
  ok, err, split_from, fresh, out_of_fuel, finish, split,
}

-- At most `n` runes are left.
abbrev pub Shorter : ℕ → Next → Type 0
Shorter n (go s p) = length p ≤ n
Shorter n (stop words) = Unit
Shorter n (fail e) = Unit

abbrev Left : ℕ → Expansion → Type 0
Left n (written out rest) = length rest ≤ n
Left n (refused e) = Unit

length-take_name : (p : Bytes) → length (take_name p).1 ≤ length p
unfolding take_name
length-take_name [] = omega arith
length-take_name (r ∷ p) = ground (arith, length-take_name p)

abbrev LeftBraced : ℕ → Option (Bytes × Bytes) → Type 0
LeftBraced n none = Unit
LeftBraced n (some (name, rest)) = length rest ≤ n

LeftBraced-more :
    (n r : ℕ) (o : Option (Bytes × Bytes))
    → LeftBraced n o
    → LeftBraced (suc n) (elim o [ none ↦ none | some (name, rest) ↦ some (r ∷ name, rest) ])
LeftBraced-more n r none h = tt
LeftBraced-more n r (some (name, rest)) h = omega (arith, h)

take_braced-LeftBraced : (p : Bytes) → LeftBraced (length p) (take_braced p)
unfolding take_braced
take_braced-LeftBraced [] = tt
take_braced-LeftBraced (r ∷ p) =
    LeftBraced-if (r == b'}') _ _ _ (omega arith)
      (LeftBraced-more (length p) r (take_braced p) (take_braced-LeftBraced p))
  where
    LeftBraced-if :
        (b : Bool) (n : ℕ) (x y : Option (Bytes × Bytes))
        → LeftBraced n x
        → LeftBraced n y
        → LeftBraced n (if b then x else y)
    LeftBraced-if true n x y h k = h
    LeftBraced-if false n x y h k = k

braced-Left :
    (env : Env) (n : ℕ) (o : Option (Bytes × Bytes)) → LeftBraced n o → Left (suc n) (braced env o)
unfolding braced
braced-Left env n none h = tt
braced-Left env n (some (name, rest)) h = omega (arith, h)

Left-if :
    (b : Bool) (n : ℕ) (x y : Expansion)
    → (b ≡ true → Left n x)
    → (b ≡ false → Left n y)
    → Left n (if b then x else y)
Left-if true n x y h k = h refl
Left-if false n x y h k = k refl

named_shorter :
    (r : ℕ) (p : Bytes) → (r == b'_' || is_alpha r) ≡ true → length (take_name (r ∷ p)).1 ≤ length p
unfolding take_name in_name
named_shorter r p h = ground (arith, length-take_name p)

expand-Left : (env : Env) (p : Bytes) → Left (length p) (expand env p)
unfolding expand named
expand-Left env [] = omega arith
expand-Left env (r ∷ p) = ground (
  arith,
  braced-Left env (length p) (take_braced p) (take_braced-LeftBraced p),
  named_shorter r p,
)

escaped-Shorter : (s : Scan) (p : Bytes) → Shorter (length p) (escaped s p)
unfolding escaped
escaped-Shorter s [] = omega arith
escaped-Shorter s (r ∷ p) = omega arith

expanded-Shorter : (s : Scan) (n : ℕ) (e : Expansion) → Left n e → Shorter n (expanded s e)
unfolding expanded
expanded-Shorter s n (written out rest) h = h
expanded-Shorter s n (refused e) h = tt

in_single-Shorter : (s : Scan) (r : ℕ) (p : Bytes) → Shorter (length p) (in_single s r p)
unfolding in_single
in_single-Shorter s r p = ground arith

in_double-Shorter :
    (env : Env) (s : Scan) (r : ℕ) (p : Bytes) → Shorter (length p) (in_double env s r p)
unfolding in_double
in_double-Shorter env s r p =
    ground
      (arith, escaped-Shorter s p, expanded-Shorter s (length p) (expand env p) (expand-Left env p))

unquoted-Shorter :
    (env : Env) (s : Scan) (r : ℕ) (p : Bytes) → Shorter (length p) (unquoted env s r p)
unfolding unquoted
unquoted-Shorter env s r p = ground (
  arith,
  escaped-Shorter (record s { in_word = true }) p,
  expanded-Shorter (record s { in_word = true }) (length p) (expand env p) (expand-Left env p),
)

pub step-Shorter : (env : Env) (s : Scan) (r : ℕ) (p : Bytes) → Shorter (length p) (step env s r p)
unfolding step
step-Shorter env s r p =
    ground (arith, in_single-Shorter s r p, in_double-Shorter env s r p, unquoted-Shorter env s r p)

-- The rest of the loop behind one round.
abbrev pub continue : (Scan → Bytes → Outcome) → Next → Outcome
continue rest (go s p) = rest s p
continue rest (stop words) = ok words
continue rest (fail e) = err e

continue-agree :
    (rest rest' : Scan → Bytes → Outcome) (n : ℕ) (x : Next)
    → Shorter n x
    → ((s : Scan) (p : Bytes) → length p ≤ n → rest s p ≡ rest' s p)
    → continue rest x ≡ continue rest' x
continue-agree rest rest' n (go s p) h agree = agree s p h
continue-agree rest rest' n (stop words) h agree = refl
continue-agree rest rest' n (fail e) h agree = refl

-- More fuel than runes changes nothing.
pub split_from-fuel :
    (f g : ℕ) (env : Env) (s : Scan) (p : Bytes)
    → length p ≤ f
    → length p ≤ g
    → split_from env f s p ≡ split_from env g s p
unfolding split_from
split_from-fuel f g env s [] h k = refl
split_from-fuel zero g env s (r ∷ p) h k = absurd (omega arith)
split_from-fuel (suc f) zero env s (r ∷ p) h k = absurd (omega arith)
split_from-fuel (suc f) (suc g) env s (r ∷ p) h k =
    continue-agree (split_from env f) (split_from env g) (length p) (step env s r p)
      (step-Shorter env s r p)
      λ s' p' le. split_from-fuel f g env s' p' (omega (arith, h, le)) (omega (arith, k, le))

-- The loop with just the fuel that suffices.
unfoldable pub scan : Env → Scan → Bytes → Outcome
scan env s p = split_from env (length p) s p

pub scan-step :
    (env : Env) (s : Scan) (r : ℕ) (p : Bytes)
    → scan env s (r ∷ p) ≡ continue (scan env) (step env s r p)
unfolding scan split_from
scan-step env s r p =
    continue-agree (split_from env (length p)) (scan env) (length p) (step env s r p)
      (step-Shorter env s r p)
      λ s' p' le. split_from-fuel (length p) (length p') env s' p' le (omega arith)

finish-fuel : (s : Scan) → finish s ≢ out_of_fuel
unfolding finish
finish-fuel s = ground arith

continue-fuel :
    (rest : Scan → Bytes → Outcome) (n : ℕ) (x : Next)
    → Shorter n x
    → ((s : Scan) (p : Bytes) → length p ≤ n → rest s p ≢ out_of_fuel)
    → continue rest x ≢ out_of_fuel
continue-fuel rest n (go s p) h enough = enough s p h
continue-fuel rest n (stop words) h enough = λ e. cc
continue-fuel rest n (fail e) h enough = λ e'. cc

split_from-enough :
    (f : ℕ) (env : Env) (s : Scan) (p : Bytes) → length p ≤ f → split_from env f s p ≢ out_of_fuel
unfolding split_from
split_from-enough f env s [] h = finish-fuel s
split_from-enough zero env s (r ∷ p) h = absurd (omega arith)
split_from-enough (suc f) env s (r ∷ p) h =
    continue-fuel (split_from env f) (length p) (step env s r p) (step-Shorter env s r p)
      λ s' p' le. split_from-enough f env s' p' (omega (arith, h, le))

-- Splitting always ends with words or an error: each round reads a rune at least, `expand`
-- included, so the fuel of `split` is enough for every line.
pub split-enough : (env : Env) (line : Bytes) → split env line ≢ out_of_fuel
unfolding split
split-enough env line = split_from-enough (length line) env fresh line (omega arith)
