-- ===== src/Common/Slices.antt =====
-- Go's `copy` on slices, and the last bytes of a sequence.
use Prim.Native.Nat.{ℕ, zero, suc, ◌+◌, ◌-◌, ◌≤◌}
use mathlib.Core.Path.{◌≡◌, refl, sym, ap, ◌∙◌}
use native.Mathlib.Decide.{dec_le}
use mathlib.Core.List.{List, [], ◌∷◌, ◌++◌, append_assoc}
use native.Mathlib.Omega.{arith}
use scomp_agent.Common.Lists.{
  length, take, drop, length-append, drop_prefix, length-drop, take-append-drop,
}

module _ {ℓ} {A : Type ℓ} where
  -- `copy(dst, src)`: the shorter of the two lengths is written, the rest of `dst` stays.
  abbrev pub copy : List A → List A → List A
  copy [] src = []
  copy (d ∷ dst) [] = d ∷ dst
  copy (d ∷ dst) (s ∷ src) = s ∷ copy dst src

  -- `copy(dst[k:], src)`, seen in the whole of `dst`.
  abbrev pub copy_at : List A → ℕ → List A → List A
  copy_at dst zero src = copy dst src
  copy_at [] (suc k) src = []
  copy_at (d ∷ dst) (suc k) src = d ∷ copy_at dst k src

  -- The last `n` items of a list, or all of it.
  abbrev pub keep_last : ℕ → List A → List A
  keep_last n xs = drop (length xs - n) xs

module _ {ℓ} {A : Type ℓ} where
  pub length-copy : (dst src : List A) → length (copy dst src) ≡ length dst
  length-copy [] src = refl
  length-copy (d ∷ dst) [] = refl
  length-copy (d ∷ dst) (s ∷ src) = ap suc (length-copy dst src)

  pub length-copy_at :
      (dst : List A) (k : ℕ) (src : List A) → length (copy_at dst k src) ≡ length dst
  length-copy_at dst zero src = length-copy dst src
  length-copy_at [] (suc k) src = refl
  length-copy_at (d ∷ dst) (suc k) src = ap suc (length-copy_at dst k src)

  -- A destination that is longer than the source keeps what lies behind it.
  pub copy_over :
      (old src rest : List A) → length old ≡ length src → copy (old ++ rest) src ≡ src ++ rest
  copy_over [] [] [] h = refl
  copy_over [] [] (x ∷ rest) h = refl
  copy_over [] (s ∷ src) rest h = absurd (omega arith)
  copy_over (x ∷ old) [] rest h = absurd (omega arith)
  copy_over (x ∷ old) (s ∷ src) rest h = ap (◌∷◌ s) (copy_over old src rest (omega arith))

  -- A source that is longer than the destination is cut.
  pub copy_cut : (dst src rest : List A) → length dst ≡ length src → copy dst (src ++ rest) ≡ src
  copy_cut [] [] rest h = refl
  copy_cut [] (s ∷ src) rest h = absurd (omega arith)
  copy_cut (x ∷ dst) [] rest h = absurd (omega arith)
  copy_cut (x ∷ dst) (s ∷ src) rest h = ap (◌∷◌ s) (copy_cut dst src rest (omega arith))

  pub copy_at-append :
      (a b : List A) (k : ℕ) (src : List A)
      → k ≡ length a
      → copy_at (a ++ b) k src ≡ a ++ copy b src
  copy_at-append [] b zero src h = refl
  copy_at-append [] b (suc k) src h = absurd (omega arith)
  copy_at-append (x ∷ a) b zero src h = absurd (omega arith)
  copy_at-append (x ∷ a) b (suc k) src h = ap (◌∷◌ x) (copy_at-append a b k src (omega arith))

  pub keep_last-append : (n : ℕ) (xs ys : List A) → length ys ≡ n → keep_last n (xs ++ ys) ≡ ys
  keep_last-append n xs ys h = drop_prefix _ xs ys (omega (arith, length-append {ℓ} xs ys))

  pub keep_last_all : (n : ℕ) (xs : List A) → length xs ≤ n → keep_last n xs ≡ xs
  keep_last_all n xs h = let e : length xs - n ≡ 0 = omega arith in ap (λ k. drop k xs) e

  pub length-keep_last : (n : ℕ) (xs : List A) → length (keep_last n xs) ≤ n
  length-keep_last n xs = omega (arith, length-drop {ℓ} (length xs - n) xs)

module _ {ℓ} {A : Type ℓ} where
  pub copy_nil : (dst : List A) → copy dst [] ≡ dst
  copy_nil [] = refl
  copy_nil (d ∷ dst) = refl

  pub copy_exact : (dst src : List A) → length dst ≡ length src → copy dst src ≡ src
  copy_exact [] [] h = refl
  copy_exact [] (s ∷ src) h = absurd (omega arith)
  copy_exact (d ∷ dst) [] h = absurd (omega arith)
  copy_exact (d ∷ dst) (s ∷ src) h = ap (◌∷◌ s) (copy_exact dst src (omega arith))

  -- Two copies, one behind the other, that fill the destination.
  pub copy_fill :
      (out xs ys : List A) (n : ℕ)
      → length out ≡ length xs + length ys
      → n ≡ length xs
      → copy_at (copy out xs) n ys ≡ xs ++ ys
  copy_fill out [] ys zero h e = rw copy_nil (copy_exact out ys (omega arith))
  copy_fill out [] ys (suc n) h e = absurd (omega arith)
  copy_fill [] (x ∷ xs) ys n h e = absurd (omega arith)
  copy_fill (d ∷ out) (x ∷ xs) ys zero h e = absurd (omega arith)
  copy_fill (d ∷ out) (x ∷ xs) ys (suc n) h e =
      ap (◌∷◌ x) (copy_fill out xs ys n (omega arith) (omega arith))

  drop_past : (m k : ℕ) (xs ys : List A) → k ≡ length xs + m → drop k (xs ++ ys) ≡ drop m ys
  drop_past m k [] ys e = ap (λ j. drop j ys) (let e' : k ≡ m = omega arith in e')
  drop_past m zero (x ∷ xs) ys e = absurd (omega arith)
  drop_past m (suc k) (x ∷ xs) ys e = drop_past m k xs ys (omega arith)

  -- What stands in front of enough items does not matter.
  pub keep_last-append_ge :
      (n : ℕ) (xs ys : List A) → n ≤ length ys → keep_last n (xs ++ ys) ≡ keep_last n ys
  keep_last-append_ge n xs ys h =
      drop_past (length ys - n) _ xs ys (omega (arith, length-append {ℓ} xs ys))

  pub keep_last-keep_last :
      (n : ℕ) (xs ys : List A) → keep_last n (keep_last n xs ++ ys) ≡ keep_last n (xs ++ ys)
  keep_last-keep_last n xs ys = elim (dec_le (length xs) n) [
    | yes h ↦ ap (λ zs. keep_last n (zs ++ ys)) (keep_last_all n xs h)
    | no h ↦
        let k : ℕ = length xs - n in
        sym (
          keep_last-append_ge n (take k xs) (drop k xs ++ ys)
            (omega (arith, length-append {ℓ} (drop k xs) ys, length-drop {ℓ} k xs)))
        ∙ ap (keep_last n) (
            sym (append_assoc (take k xs) (drop k xs) ys)
            ∙ ap (λ zs. zs ++ ys) (take-append-drop k xs))
  ]
