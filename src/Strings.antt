-- ===== src/Strings.antt =====
-- The functions of Go's `strings` that the code calls. A string is the list of its runes.
mod Tests
use scomp_agent.Common.{
  ℕ, ◌-◌, Bool, true, false, ◌&&◌, Option, none, some, List, [], ◌∷◌, ◌==◌, if◌then◌else◌, Bytes,
  set,
}
use scomp_agent.Term.Line.{is_space}

abbrev pub is_nil : Bytes → Bool
is_nil [] = true
is_nil (r ∷ p) = false

-- `strings.TrimSpace`
unfoldable pub trim_left : Bytes → Bytes
trim_left [] = []
trim_left (r ∷ line) = let rest = trim_left line in if is_space r then rest else r ∷ line

unfoldable pub trim_right : Bytes → Bytes
trim_right [] = []
trim_right (r ∷ line) =
    let rest = trim_right line in if is_space r && is_nil rest then [] else r ∷ rest

unfoldable pub trim_space : Bytes → Bytes
unfolding trim_left trim_right
trim_space line = trim_right (trim_left line)

-- `strings.HasPrefix`, the prefix first.
unfoldable pub has_prefix : Bytes → Bytes → Bool
has_prefix [] s = true
has_prefix (c ∷ prefix) [] = false
has_prefix (c ∷ prefix) (r ∷ s) = c == r && has_prefix prefix s

-- `strings.Split` at one rune.
unfoldable pub onto_first : ℕ → List Bytes → List Bytes
onto_first r [] = (r ∷ []) ∷ []
onto_first r (w ∷ ws) = (r ∷ w) ∷ ws

unfoldable pub split_at : ℕ → Bytes → List Bytes
unfolding onto_first
split_at sep [] = [] ∷ []
split_at sep (r ∷ s) =
    let rest = split_at sep s in if r == sep then [] ∷ rest else onto_first r rest

-- What stands before the first such rune, and behind it if there is one.
unfoldable pub cut_at : ℕ → Bytes → Bytes × Option Bytes
cut_at sep [] = ([], none)
cut_at sep (r ∷ s) =
    let (before, after) = cut_at sep s in if r == sep then ([], some s) else (r ∷ before, after)

-- `strings.Fields`: the runs of runes that are no space.
unfoldable pub fields_from : Bytes → Bytes × List Bytes
fields_from [] = ([], [])
fields_from (r ∷ s) =
    let (word, more) = fields_from s in
    if is_space r then ([], if is_nil word then more else word ∷ more) else (r ∷ word, more)

unfoldable pub fields : Bytes → List Bytes
unfolding fields_from
fields s = let (word, more) = fields_from s in if is_nil word then more else word ∷ more

-- The string has the rune.
unfoldable pub contains : ℕ → Bytes → Bool
contains c [] = false
contains c (r ∷ s) = if r == c then true else contains c s

-- `strings.Trim` with a set of runes.
unfoldable pub strip_left : Bytes → Bytes → Bytes
unfolding contains
strip_left set [] = []
strip_left set (r ∷ s) = let rest = strip_left set s in if contains r set then rest else r ∷ s

unfoldable pub strip_right : Bytes → Bytes → Bytes
unfolding contains
strip_right set [] = []
strip_right set (r ∷ s) =
    let rest = strip_right set s in if contains r set && is_nil rest then [] else r ∷ rest

unfoldable pub trim : Bytes → Bytes → Bytes
unfolding strip_left strip_right
trim set s = strip_right set (strip_left set s)
