-- ===== src/Term/Utf8.antt =====
-- The standard library's `unicode/utf8`, as the decoder uses it.
use scomp_agent.Common.{
  ℕ, ◌+◌, ◌*◌, ◌/◌, ◌%◌, ◌≤◌, ◌<◌, ◌⊎◌, Bool, false, not, ◌&&◌, ◌||◌, [], ◌∷◌, ltb, leb, ◌==◌,
  if◌then◌else◌, Bytes, length,
}
use scomp_agent.Term.Keys.{max_rune}

abbrev pub rune_error : ℕ
rune_error = 0xfffd

abbrev pub utf_max : ℕ
utf_max = 4

-- How many bytes a first byte announces; 1 for an invalid one too.
unfoldable pub size_of : ℕ → ℕ
size_of b =
    if ltb b 0xc2
    then 1
    else if ltb b 0xe0
    then 2
    else if ltb b 0xf0
    then 3
    else if ltb b 0xf5
    then 4
    else 1

-- The range of the second byte.
unfoldable pub accept_lo : ℕ → ℕ
accept_lo b = if b == 0xe0 then 0xa0 else if b == 0xf0 then 0x90 else 0x80

unfoldable pub accept_hi : ℕ → ℕ
accept_hi b = if b == 0xed then 0x9f else if b == 0xf4 then 0x8f else 0xbf

abbrev pub is_second : ℕ → ℕ → Bool
is_second b c = leb (accept_lo b) c && leb c (accept_hi b)

abbrev pub is_next : ℕ → Bool
is_next c = leb 0x80 c && leb c 0xbf

-- `FullRune`: no further byte can change what `DecodeRune` says of the start.
unfoldable pub full_rune : Bytes → Bool
unfolding size_of accept_lo accept_hi
full_rune [] = false
full_rune (b ∷ p) = leb (size_of b) (length (b ∷ p)) || is_broken b p
  where
    is_broken : ℕ → Bytes → Bool
    is_broken b [] = false
    is_broken b (c ∷ []) = not (is_second b c)
    is_broken b (c ∷ d ∷ p) = not (is_second b c) || not (is_next d)

-- `DecodeRune`, without the size that it returns too.
unfoldable pub decode_rune : Bytes → ℕ
unfolding size_of accept_lo accept_hi
decode_rune [] = rune_error
decode_rune (b ∷ []) = if ltb b 0x80 then b else rune_error
decode_rune (b ∷ c ∷ []) =
    if ltb b 0x80
    then b
    else if size_of b == 2 && is_second b c
    then b % 32 * 64 + c % 64
    else rune_error
decode_rune (b ∷ c ∷ d ∷ []) =
    if ltb b 0x80
    then b
    else if size_of b == 2 && is_second b c
    then b % 32 * 64 + c % 64
    else if size_of b == 3 && is_second b c && is_next d
    then b % 16 * 4096 + c % 64 * 64 + d % 64
    else rune_error
decode_rune (b ∷ c ∷ d ∷ e ∷ p) =
    if ltb b 0x80
    then b
    else if size_of b == 2 && is_second b c
    then b % 32 * 64 + c % 64
    else if size_of b == 3 && is_second b c && is_next d
    then b % 16 * 4096 + c % 64 * 64 + d % 64
    else if size_of b == 4 && is_second b c && is_next d && is_next e
    then b % 8 * 262144 + c % 64 * 4096 + d % 64 * 64 + e % 64
    else rune_error

-- `string(rune)`, for a scalar value.
unfoldable pub encode_rune : ℕ → Bytes
encode_rune r =
    if ltb r 0x80
    then r ∷ []
    else if ltb r 0x800
    then (0xc0 + r / 64) ∷ (0x80 + r % 64) ∷ []
    else if ltb r 0x10000
    then (0xe0 + r / 4096) ∷ (0x80 + r / 64 % 64) ∷ (0x80 + r % 64) ∷ []
    else (0xf0 + r / 262144) ∷ (0x80 + r / 4096 % 64) ∷ (0x80 + r / 64 % 64) ∷ (0x80 + r % 64) ∷ []

abbrev pub IsScalar : ℕ → Type 0
IsScalar r = (r ≤ max_rune) × ((r < 0xd800) ⊎ (0xdfff < r))
