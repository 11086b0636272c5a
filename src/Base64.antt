-- ===== src/Base64.antt =====
-- The standard library's `base64.StdEncoding`, as cmd/scomp/main.go uses it for the terminal bytes
-- of a message: padded, and lenient about line breaks and unused bits when it decodes.
pub mod RoundTrip
use scomp_agent.Common.{
  ℕ, ◌+◌, ◌-◌, ◌*◌, ◌/◌, ◌%◌, Bool, ◌&&◌, ◌||◌, Option, none, some, [], ◌∷◌, ◌++◌, ltb, leb, ◌==◌,
  if◌then◌else◌, Bytes, text,
}

-- One character of the alphabet, for a value below 64.
unfoldable pub symbol : ℕ → ℕ
symbol v =
    if ltb v 26
    then v + b'A'
    else if ltb v 52
    then v - 26 + b'a'
    else if ltb v 62
    then v - 52 + b'0'
    else if v == 62
    then b'+'
    else b'/'

unfoldable pub value : ℕ → Option ℕ
value c =
    if leb b'A' c && leb c b'Z'
    then some (c - b'A')
    else if leb b'a' c && leb c b'z'
    then some (c - b'a' + 26)
    else if leb b'0' c && leb c b'9'
    then some (c - b'0' + 52)
    else if c == b'+'
    then some 62
    else if c == b'/'
    then some 63
    else none

unfoldable pub encode : Bytes → Bytes
unfolding symbol
encode [] = []
encode (a ∷ []) = symbol (a / 4) ∷ symbol (a % 4 * 16) ∷ b'=' ∷ b'=' ∷ []
encode (a ∷ b ∷ []) =
    symbol (a / 4) ∷ symbol (a % 4 * 16 + b / 16) ∷ symbol (b % 16 * 4) ∷ b'=' ∷ []
encode (a ∷ b ∷ c ∷ rest) =
    symbol (a / 4)
    ∷ symbol (a % 4 * 16 + b / 16)
    ∷ symbol (b % 16 * 4 + c / 64)
    ∷ symbol (c % 64)
    ∷ encode rest

pub is_break : ℕ → Bool
is_break c = c == b'\n' || c == b'\r'

-- What the decoder reads: line breaks are skipped.
unfoldable pub unbroken : Bytes → Bytes
unfolding is_break
unbroken [] = []
unbroken (c ∷ cs) = if is_break c then unbroken cs else c ∷ unbroken cs

abbrev pub bind : {A B : Type 0} → Option A → (A → Option B) → Option B
bind none f = none
bind (some a) f = f a

-- The last four characters, if they end in padding.
pub padded : ℕ → ℕ → ℕ → ℕ → Option Bytes
padded x y z w = bind (value x) λ a. bind (value y) λ b.
    if z == b'='
    then (if w == b'=' then some ((a * 4 + b / 16) ∷ []) else none)
    else bind (value z) λ c. some ((a * 4 + b / 16) ∷ (b % 16 * 16 + c / 4) ∷ [])

pub whole : ℕ → ℕ → ℕ → ℕ → Option Bytes
whole x y z w = bind (value x) λ a. bind (value y) λ b.
    bind (value z) λ c.
      bind (value w) λ d. some ((a * 4 + b / 16) ∷ (b % 16 * 16 + c / 4) ∷ (c % 4 * 64 + d) ∷ [])

-- Four characters at a time; padding ends the text.
unfoldable pub decode_groups : Bytes → Option Bytes
unfolding padded whole value
decode_groups [] = some []
decode_groups (x ∷ y ∷ z ∷ w ∷ []) = if w == b'=' then padded x y z w else whole x y z w
decode_groups (x ∷ y ∷ z ∷ w ∷ v ∷ rest) =
    let tail = decode_groups (v ∷ rest) in
    bind (whole x y z w) λ front. bind tail λ back. some (front ++ back)
decode_groups _ = none

unfoldable pub decode : Bytes → Option Bytes
unfolding decode_groups unbroken
decode cs = decode_groups (unbroken cs)
