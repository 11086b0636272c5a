-- ===== src/Vfs/Resolve.antt =====
-- No path that `Resolve` answers climbs out of the tree.
pub mod Walk
use scomp_agent.Common.{
  equal, ℕ, zero, ◌-◌, ◌/◌, ◌≡◌, refl, sym, ◌∙◌, ◌≢◌, ◌⊎◌, inl, inr, Bool, true, false, ◌||◌, List,
  [], ◌∷◌, arith, ◌==◌, if◌then◌else◌, Bool-cases, Bytes, length, equal_iff,
}
use scomp_agent.Vfs.Paths.{
  has_nul, prepend, elements, dot, dot_dot, climb, clean_from, joined, clean, is_rooted, resolve,
  pushed,
}

-- No byte of the name is a slash.
abbrev pub NoSlash : Bytes → Type 0
NoSlash [] = Unit
NoSlash (b ∷ p) = ((b == b'/') ≡ false) × NoSlash p

-- A name that stands for an entry of its directory.
abbrev pub IsName : Bytes → Type 0
IsName e = (e ≢ []) × (e ≢ dot) × (e ≢ dot_dot) × NoSlash e

abbrev pub AllNames : List Bytes → Type 0
AllNames [] = Unit
AllNames (e ∷ es) = IsName e × AllNames es

abbrev AllNoSlash : List Bytes → Type 0
AllNoSlash [] = Unit
AllNoSlash (e ∷ es) = NoSlash e × AllNoSlash es

climb-AllNames : (out : List Bytes) → AllNames out → AllNames (climb true out)
unfolding climb
climb-AllNames [] h = tt
climb-AllNames (top ∷ out) h = elim (Bool-cases (equal top dot_dot)) [
  | inl up ↦ absurd (h.0.2 ((equal_iff top dot_dot).0 up))
  | inr other ↦ rw other h.1
]

pushed-AllNames :
    (out : List Bytes) (e : Bytes) → AllNames out → NoSlash e → AllNames (pushed true out e)
unfolding pushed
pushed-AllNames out e h n = elim (Bool-cases (length e == 0 || equal e dot)) [
  | inl skip ↦ rw skip h
  | inr real ↦ elim (Bool-cases (equal e dot_dot)) [
    | inl up ↦ rw (real, up) (climb-AllNames out h)
    | inr name ↦
        rw (real, name)
          (
            (
              λ e0. ground arith,
              λ e0. ground (arith, equal_iff e dot),
              λ e0. ground (arith, equal_iff e dot_dot),
              n,
            ),
            h,
          )
  ]
]

clean_from-AllNames :
    (es out : List Bytes) → AllNames out → AllNoSlash es → AllNames (clean_from true es out)
unfolding clean_from
clean_from-AllNames [] out h n = h
clean_from-AllNames (e ∷ es) out h n =
    clean_from-AllNames es (pushed true out e) (pushed-AllNames out e h n.0) n.1

prepend-AllNoSlash :
    (b : ℕ) (es : List Bytes) → (b == b'/') ≡ false → AllNoSlash es → AllNoSlash (prepend b es)
unfolding prepend
prepend-AllNoSlash b [] ne h = ((ne, tt), tt)
prepend-AllNoSlash b (e ∷ es) ne h = ((ne, h.0), h.1)

AllNoSlash-if :
    (c : Bool) (b : ℕ) (es : List Bytes)
    → (b == b'/') ≡ c
    → AllNoSlash es
    → AllNoSlash (if c then [] ∷ es else prepend b es)
AllNoSlash-if true b es at h = (tt, h)
AllNoSlash-if false b es at h = prepend-AllNoSlash b es at h

elements-AllNoSlash : (p : Bytes) → AllNoSlash (elements p)
unfolding elements
elements-AllNoSlash [] = (tt, tt)
elements-AllNoSlash (b ∷ p) = AllNoSlash-if (b == b'/') b (elements p) refl (elements-AllNoSlash p)

-- `/` and names with a slash between them.
abbrev pub IsClean : Bytes → Type 0
IsClean p = (out : List Bytes) × AllNames out × (p ≡ b'/' ∷ joined [] out)

pub clean-IsClean : (p : Bytes) → IsClean (clean (b'/' ∷ p))
unfolding clean is_rooted
clean-IsClean p =
    (_, clean_from-AllNames (elements (b'/' ∷ p)) [] tt (elements-AllNoSlash (b'/' ∷ p)), refl)

-- No byte of the path is zero.
abbrev pub NoZero : Bytes → Type 0
NoZero [] = Unit
NoZero (b ∷ p) = (b ≢ 0) × NoZero p

has_nul-NoZero : (p : Bytes) → has_nul p ≡ false → NoZero p
unfolding has_nul
has_nul-NoZero [] h = tt
has_nul-NoZero (b ∷ p) h = (λ e. ground (arith, e), has_nul-NoZero p (ground (arith, h)))

pub NoZero-has_nul : (p : Bytes) → NoZero p → has_nul p ≡ false
unfolding has_nul
NoZero-has_nul [] h = refl
NoZero-has_nul (b ∷ p) (ne, h) = ground (arith, ne, NoZero-has_nul p h)

-- `Resolve` answers the empty path just for a path with a zero byte; for any other it answers a
-- slash and names that stand for entries: neither `.` nor `..` nor an empty name is left, whatever
-- the path, so that no path leads out of the tree.
pub resolve-IsClean :
    (cwd p : Bytes) → ((¬ NoZero p) × (resolve cwd p ≡ [])) ⊎ (NoZero p × IsClean (resolve cwd p))
unfolding resolve
resolve-IsClean cwd p = elim (Bool-cases (has_nul p)) [
  | inl nul ↦
      inl ((λ h. let clash : true ≡ false = sym nul ∙ NoZero-has_nul p h in cc), rw nul refl)
  | inr plain ↦ inr (has_nul-NoZero p plain, rw plain (clean-IsClean _))
]
