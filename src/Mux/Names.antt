-- ===== src/Mux/Names.antt =====
-- The display names that a listing of screen leads to.
use scomp_agent.Common.{
  equal, ◌≡◌, refl, sym, ap, ◌∙◌, ◌⊎◌, inl, inr, Bool, true, false, Option, none, some, List, [],
  ◌∷◌, if◌then◌else◌, Bool-cases, Bytes, equal_iff, equal_refl,
}
use scomp_agent.Strings.{split_at}
use scomp_agent.Mux.{
  ScreenSession, is_seen, screen_line, keep_new, parse_screen_lines, parse_screen_output,
}

abbrev pub names : List ScreenSession → List Bytes
names [] = []
names (s ∷ ss) = s.name ∷ names ss

abbrev pub Distinct : List Bytes → Type 0
Distinct [] = Unit
Distinct (n ∷ ns) = (is_seen ns n ≡ false) × Distinct ns

-- A line of the listing tells of a session with the name.
unfoldable pub is_told : Bytes → List Bytes → Bool
is_told n [] = false
is_told n (line ∷ lines) =
    let rest = is_told n lines in
    elim (screen_line line) [ none ↦ rest | some s ↦ if equal s.name n then true else rest ]

abbrev Rest : Type 0
Rest = List Bytes → List ScreenSession

-- What was seen is not listed again.
keep_new-seen :
    (seen : List Bytes) (o : Option ScreenSession) (rest : Rest) (n : Bytes)
    → ((more : List Bytes) → is_seen more n ≡ true → is_seen (names (rest more)) n ≡ false)
    → is_seen seen n ≡ true
    → is_seen (names (keep_new seen o rest)) n ≡ false
unfolding keep_new is_seen
keep_new-seen seen none rest n ih h = ih seen h
keep_new-seen seen (some s) rest n ih h = elim (Bool-cases (is_seen seen s.name)) [
  | inl b ↦ rw b (ih seen h)
  | inr b ↦ rw b (elim (Bool-cases (equal s.name n)) [
    | inl same ↦
        let e : s.name ≡ n = (equal_iff s.name n).0 same in
        let c : true ≡ false = sym h ∙ ap (is_seen seen) (sym e) ∙ b in cc
    | inr other ↦ rw other (ih (s.name ∷ seen) (rw other h))
  ])
]

parse_screen_lines-seen :
    (lines seen : List Bytes) (n : Bytes)
    → is_seen seen n ≡ true
    → is_seen (names (parse_screen_lines lines seen)) n ≡ false
unfolding parse_screen_lines is_seen
parse_screen_lines-seen [] seen n h = refl
parse_screen_lines-seen (line ∷ lines) seen n h =
    keep_new-seen seen (screen_line line) (parse_screen_lines lines) n
      (λ more h. parse_screen_lines-seen lines more n h) h

keep_new-Distinct :
    (seen : List Bytes) (o : Option ScreenSession) (rest : Rest)
    → ((more : List Bytes) (n : Bytes)
        → is_seen more n ≡ true
        → is_seen (names (rest more)) n ≡ false)
    → ((more : List Bytes) → Distinct (names (rest more)))
    → Distinct (names (keep_new seen o rest))
unfolding keep_new is_seen
keep_new-Distinct seen none rest fresh ih = ih seen
keep_new-Distinct seen (some s) rest fresh ih = elim (Bool-cases (is_seen seen s.name)) [
  | inl b ↦ rw b (ih seen)
  | inr b ↦ rw b (fresh (s.name ∷ seen) s.name (rw (equal_refl s.name) refl), ih (s.name ∷ seen))
]

parse_screen_lines-Distinct :
    (lines seen : List Bytes) → Distinct (names (parse_screen_lines lines seen))
unfolding parse_screen_lines
parse_screen_lines-Distinct [] seen = tt
parse_screen_lines-Distinct (line ∷ lines) seen =
    keep_new-Distinct seen (screen_line line) (parse_screen_lines lines)
      (λ more n h. parse_screen_lines-seen lines more n h)
      (λ more. parse_screen_lines-Distinct lines more)

-- The name was seen before or is listed.
abbrev Found : List Bytes → List ScreenSession → Bytes → Type 0
Found seen ss n = (is_seen seen n ≡ true) ⊎ (is_seen (names ss) n ≡ true)

keep_new-told :
    (seen : List Bytes) (o : Option ScreenSession) (rest : Rest) (n : Bytes) (later : Bool)
    → (elim o [ none ↦ later | some s ↦ if equal s.name n then true else later ]) ≡ true
    → (later ≡ true → (more : List Bytes) → Found more (rest more) n)
    → Found seen (keep_new seen o rest) n
unfolding keep_new is_seen
keep_new-told seen none rest n later h ih = ih h seen
keep_new-told seen (some s) rest n later h ih = elim (Bool-cases (equal s.name n)) [
  | inl same ↦ elim (Bool-cases (is_seen seen s.name)) [
    | inl b ↦ inl (ap (is_seen seen) (sym ((equal_iff s.name n).0 same)) ∙ b)
    | inr b ↦ rw b (inr (rw same refl))
  ]
  | inr other ↦
      let told : later ≡ true = (rw other at h) in
      elim (Bool-cases (is_seen seen s.name)) [
        | inl b ↦ rw b (ih told seen)
        | inr b ↦ rw b (elim (ih told (s.name ∷ seen)) [
          | inl k ↦ inl (rw other at k)
          | inr k ↦ inr (rw other k)
        ])
      ]
]

parse_screen_lines-told :
    (lines seen : List Bytes) (n : Bytes)
    → is_told n lines ≡ true
    → Found seen (parse_screen_lines lines seen) n
unfolding parse_screen_lines is_told
parse_screen_lines-told [] seen n h = let e : false ≡ true = h in cc
parse_screen_lines-told (line ∷ lines) seen n h =
    keep_new-told seen (screen_line line) (parse_screen_lines lines) n (is_told n lines) h
      (λ later more. parse_screen_lines-told lines more n later)

-- Whatever screen prints, no two sessions that the agent lists have the same display name, and each
-- display name that a line tells of is listed.
pub parse_screen_output-Distinct :
    (out : Bytes)
    → Distinct (names (parse_screen_output out))
      × ((n : Bytes)
          → is_told n (split_at b'\n' out) ≡ true
          → is_seen (names (parse_screen_output out)) n ≡ true)
unfolding parse_screen_output is_seen
parse_screen_output-Distinct out = (
  parse_screen_lines-Distinct (split_at b'\n' out) [],
  λ n told. elim (parse_screen_lines-told (split_at b'\n' out) [] n told) [
    | inl h ↦ let e : false ≡ true = h in cc
    | inr h ↦ h
  ],
)
