-- ===== src/Mux/Listing.antt =====
-- Reading a listing of tmux back.
use scomp_agent.Common.{
  ℕ, zero, suc, ◌+◌, ◌-◌, ◌*◌, ◌/◌, ◌%◌, ◌^◌, ◌≤◌, ◌<◌, ◌≡◌, refl, ap, ◌∙◌, ◌⊎◌, inl, inr, Bool,
  true, false, ◌&&◌, ◌||◌, some, List, [], ◌∷◌, ◌++◌, map, append_assoc, arith, ltb, leb, ◌==◌,
  if◌then◌else◌, ltb→lt, ltb→le, Bool-cases, Bytes,
}
use scomp_agent.Mux.{digits, own_prefix, TmuxSession, windows_of, parse_lines, parse_output}
use scomp_agent.Strings.{
  is_nil, trim_right, onto_first, split_at, cut_at, contains, trim_left, trim_space, has_prefix,
}
use scomp_agent.Term.Line.{is_space}
use scomp_agent.Term.Render.{decimal_from, decimal}

-- Every rune is a decimal digit.
abbrev AllDigits : Bytes → Type 0
AllDigits [] = Unit
AllDigits (c ∷ p) = (b'0' ≤ c) × (c ≤ b'9') × AllDigits p

AllDigits-append : (p q : Bytes) → AllDigits p → AllDigits q → AllDigits (p ++ q)
AllDigits-append [] q h k = k
AllDigits-append (c ∷ p) q (lo, hi, h) k = (lo, hi, AllDigits-append p q h k)

decimal_from-AllDigits : (fuel n : ℕ) → AllDigits (decimal_from fuel n)
unfolding decimal_from
decimal_from-AllDigits zero n = tt
decimal_from-AllDigits (suc fuel) n = elim (Bool-cases (ltb n 10)) [
  | inl b ↦ rw b (omega arith, omega (arith, ltb→lt n 10 b), tt)
  | inr b ↦ rw b (
      AllDigits-append (decimal_from fuel (n / 10)) _ (decimal_from-AllDigits fuel (n / 10))
        (omega arith, omega arith, tt))
]

digits-append : (n : ℕ) (p q : Bytes) → digits n (p ++ q) ≡ digits (digits n p) q
unfolding digits
digits-append n [] q = refl
digits-append n (c ∷ p) q = elim (Bool-cases (leb b'0' c && leb c b'9')) [
  | inl b ↦ rw b (digits-append ((n * 10 + (c - b'0')) % 2 ^ 64) p q)
  | inr b ↦ rw b (digits-append n p q)
]

digits-decimal_from : (fuel n : ℕ) → n < fuel → n < 2 ^ 63 → digits 0 (decimal_from fuel n) ≡ n
unfolding decimal_from digits
digits-decimal_from zero n h k = absurd (omega (arith, h))
digits-decimal_from (suc fuel) n h k = elim (Bool-cases (ltb n 10)) [
  | inl b ↦ rw b (let small = ltb→lt n 10 b in ground (arith, small, k))
  | inr b ↦ rw b (
      let big = ltb→le n 10 b in
      digits-append 0 (decimal_from fuel (n / 10)) _
      ∙ ap (λ m. digits m ((b'0' + n % 10) ∷ []))
          (digits-decimal_from fuel (n / 10) (omega (arith, h, big)) (omega (arith, k)))
      ∙ last_digit n k)
]
  where
    last_digit : (n : ℕ) → n < 2 ^ 63 → digits (n / 10) ((b'0' + n % 10) ∷ []) ≡ n
    last_digit n k = ground (arith, k)

contains-append : (c : ℕ) (p q : Bytes) → contains c (p ++ q) ≡ (contains c p || contains c q)
unfolding contains
contains-append c [] q = refl
contains-append c (r ∷ p) q = elim (Bool-cases (r == c)) [
  | inl b ↦ rw b refl
  | inr b ↦ rw b (contains-append c p q)
]

contains_digits : (c : ℕ) (p : Bytes) → AllDigits p → (c < b'0') ⊎ (b'9' < c) → contains c p ≡ false
unfolding contains
contains_digits c [] h k = refl
contains_digits c (r ∷ p) (lo, hi, h) k =
    let other : (r == c) ≡ false = ground (arith, lo, hi, k) in rw other (contains_digits c p h k)

split_at_line :
    (sep : ℕ) (w s : Bytes)
    → contains sep w ≡ false
    → split_at sep (w ++ sep ∷ s) ≡ w ∷ split_at sep s
unfolding split_at contains onto_first
split_at_line sep [] s h = let e : (sep == sep) ≡ true = ground arith in rw e refl
split_at_line sep (r ∷ w) s h = elim (Bool-cases (r == sep)) [
  | inl b ↦ let e : true ≡ false = (rw b at h) in cc
  | inr b ↦ rw (b, split_at_line sep w s (rw b at h)) refl
]

split_at_last : (sep : ℕ) (w : Bytes) → contains sep w ≡ false → split_at sep w ≡ w ∷ []
unfolding split_at contains onto_first
split_at_last sep [] h = refl
split_at_last sep (r ∷ w) h = elim (Bool-cases (r == sep)) [
  | inl b ↦ let e : true ≡ false = (rw b at h) in cc
  | inr b ↦ rw (b, split_at_last sep w (rw b at h)) refl
]

cut_at_first :
    (sep : ℕ) (w s : Bytes) → contains sep w ≡ false → cut_at sep (w ++ sep ∷ s) ≡ (w, some s)
unfolding cut_at contains
cut_at_first sep [] s h = let e : (sep == sep) ≡ true = ground arith in rw e refl
cut_at_first sep (r ∷ w) s h = elim (Bool-cases (r == sep)) [
  | inl b ↦ let e : true ≡ false = (rw b at h) in cc
  | inr b ↦ rw (b, cut_at_first sep w s (rw b at h)) refl
]

is_nil-append : (w s : Bytes) → is_nil s ≡ false → is_nil (w ++ s) ≡ false
is_nil-append [] s h = h
is_nil-append (r ∷ w) s h = refl

trim_right_keep :
    (w s : Bytes) → is_nil (trim_right s) ≡ false → trim_right (w ++ s) ≡ w ++ trim_right s
unfolding trim_right
trim_right_keep [] s h = refl
trim_right_keep (r ∷ w) s h =
    rw (trim_right_keep w s h, is_nil-append w (trim_right s) h, and_false (is_space r)) refl
  where
    and_false : (b : Bool) → (b && false) ≡ false
    and_false true = refl
    and_false false = refl

digit_is_solid : (c : ℕ) → b'0' ≤ c → c ≤ b'9' → is_space c ≡ false
unfolding is_space
digit_is_solid c lo hi = ground (arith, lo, hi)

trim_right_digits : (p : Bytes) → AllDigits p → trim_right (p ++ b'\n' ∷ []) ≡ p
unfolding trim_right is_space
trim_right_digits [] h = refl
trim_right_digits (c ∷ p) (lo, hi, h) = rw (digit_is_solid c lo hi, trim_right_digits p h) refl

-- What `tmux list-sessions` prints with the format that `List` asks for.
abbrev pub line_of : TmuxSession → Bytes
line_of s = s.name ++ b'|' ∷ decimal s.windows

abbrev pub listing : List TmuxSession → Bytes
listing [] = []
listing (s ∷ ss) = line_of s ++ b'\n' ∷ listing ss

-- The lines without the last newline.
abbrev joined : TmuxSession → List TmuxSession → Bytes
joined s [] = line_of s
joined s (s' ∷ ss) = line_of s ++ b'\n' ∷ joined s' ss

decimal-AllDigits : (n : ℕ) → AllDigits (decimal n)
unfolding decimal
decimal-AllDigits n = decimal_from-AllDigits (n + 1) n

trim_right-line_of : (s : TmuxSession) → trim_right (line_of s ++ b'\n' ∷ []) ≡ line_of s
unfolding trim_right is_space
trim_right-line_of s =
    let digits_stay = trim_right_digits (decimal s.windows) (decimal-AllDigits s.windows) in
    let bar_stays : trim_right (b'|' ∷ decimal s.windows ++ b'\n' ∷ []) ≡ b'|' ∷ decimal s.windows =
      rw digits_stay refl in
    ap trim_right (append_assoc s.name (b'|' ∷ decimal s.windows) (b'\n' ∷ []))
    ∙ trim_right_keep s.name (b'|' ∷ decimal s.windows ++ b'\n' ∷ []) (ap is_nil bar_stays)
    ∙ ap (λ p. s.name ++ p) bar_stays

is_nil-joined : (s : TmuxSession) (ss : List TmuxSession) → is_nil (joined s ss) ≡ false
is_nil-joined s [] = is_nil-append s.name _ refl
is_nil-joined s (s' ∷ ss) = is_nil-append (line_of s) _ refl

trim_right-listing :
    (s : TmuxSession) (ss : List TmuxSession) → trim_right (listing (s ∷ ss)) ≡ joined s ss
unfolding trim_right is_space
trim_right-listing s [] = trim_right-line_of s
trim_right-listing s (s' ∷ ss) =
    let ih = trim_right-listing s' ss in
    let rest : trim_right (b'\n' ∷ listing (s' ∷ ss)) ≡ b'\n' ∷ joined s' ss =
      newline_stays (listing (s' ∷ ss)) (joined s' ss) ih (is_nil-joined s' ss) in
    trim_right_keep (line_of s) (b'\n' ∷ listing (s' ∷ ss)) (ap is_nil rest)
    ∙ ap (λ p. line_of s ++ p) rest
  where
    newline_stays :
        (p q : Bytes) → trim_right p ≡ q → is_nil q ≡ false → trim_right (b'\n' ∷ p) ≡ b'\n' ∷ q
    newline_stays p q e n = rw (e, n) refl

-- A name that the listing tells whole, and a count of windows that an `int` holds.
pub record Plain (s : TmuxSession) : Type 0 where
  pub no_bar : contains b'|' s.name ≡ false
  pub no_newline : contains b'\n' s.name ≡ false
  pub some_windows : 0 < s.windows
  pub bounded : s.windows < 2 ^ 63

abbrev pub AllPlain : List TmuxSession → Type 0
AllPlain [] = Unit
AllPlain (s ∷ ss) = Plain s × AllPlain ss

contains-line_of : (s : TmuxSession) → Plain s → contains b'\n' (line_of s) ≡ false
unfolding contains
contains-line_of s h =
    contains-append b'\n' s.name (b'|' ∷ decimal s.windows)
    ∙ rw
        (
          h.no_newline,
          contains_digits b'\n' (decimal s.windows) (decimal-AllDigits s.windows)
              (inl (omega arith)),
        )
        refl

split_at-joined :
    (s : TmuxSession) (ss : List TmuxSession)
    → AllPlain (s ∷ ss)
    → split_at b'\n' (joined s ss) ≡ map line_of (s ∷ ss)
split_at-joined s [] (h, hs) = split_at_last b'\n' (line_of s) (contains-line_of s h)
split_at-joined s (s' ∷ ss) (h, hs) =
    split_at_line b'\n' (line_of s) (joined s' ss) (contains-line_of s h)
    ∙ ap (◌∷◌ (line_of s)) (split_at-joined s' ss hs)

-- The sessions that are not the agent's own.
unfoldable pub foreign : List TmuxSession → List TmuxSession
foreign [] = []
foreign (s ∷ ss) = let rest = foreign ss in if has_prefix own_prefix s.name then rest else s ∷ rest

windows_of-decimal : (n : ℕ) → 0 < n → n < 2 ^ 63 → windows_of (some (decimal n)) ≡ n
unfolding windows_of decimal
windows_of-decimal n h k =
    let e : digits 0 (decimal_from (n + 1) n) ≡ n = digits-decimal_from (n + 1) n (omega arith) k in
    rw e (ground (arith, h, k))

parse_lines-listing :
    (ss : List TmuxSession) → AllPlain ss → parse_lines (map line_of ss) ≡ foreign ss
unfolding parse_lines foreign
parse_lines-listing [] h = refl
parse_lines-listing (s ∷ ss) (h, hs) =
    rw
      (
        cut_at_first b'|' s.name (decimal s.windows) h.no_bar,
        is_nil-append s.name (b'|' ∷ decimal s.windows) refl,
        windows_of-decimal s.windows h.some_windows h.bounded,
        parse_lines-listing ss hs,
      )
      refl

-- The first rune is there and no space.
abbrev pub Solid : Bytes → Type 0
Solid [] = ⊥
Solid (r ∷ p) = is_space r ≡ false

abbrev pub FirstSolid : List TmuxSession → Type 0
FirstSolid [] = Unit
FirstSolid (s ∷ ss) = Solid s.name

trim_left-Solid : (p q : Bytes) → Solid p → trim_left (p ++ q) ≡ p ++ q
unfolding trim_left
trim_left-Solid [] q h = absurd h
trim_left-Solid (r ∷ p) q h = rw h refl

Solid-append : (p q : Bytes) → Solid p → Solid (p ++ q)
Solid-append [] q h = absurd h
Solid-append (r ∷ p) q h = h

-- The agent sees just the sessions that tmux lists, with their windows and in their order, less
-- those whose names start like its own linked sessions: if no name has a bar or a newline in it,
-- the first one does not start with a space, and each session has between 1 and 2^63 - 1 windows.
pub parse_output-listing :
    (ss : List TmuxSession) → AllPlain ss → FirstSolid ss → parse_output (listing ss) ≡ foreign ss
unfolding parse_output trim_space split_at parse_lines trim_left trim_right foreign
parse_output-listing [] h k = refl
parse_output-listing (s ∷ ss) h k =
    ap (λ p. parse_lines (split_at b'\n' (trim_right p)))
      (trim_left-Solid (line_of s) (b'\n' ∷ listing ss) (Solid-append s.name _ k))
    ∙ ap (λ p. parse_lines (split_at b'\n' p)) (trim_right-listing s ss)
    ∙ ap parse_lines (split_at-joined s ss h)
    ∙ parse_lines-listing (s ∷ ss) h
