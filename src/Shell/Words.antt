-- ===== src/Shell/Words.antt =====
-- fakeshell/shell.go: `split` and `expand`. A string is the list of its runes. An index into the
-- runes is the list of those that follow.
pub mod Fuel
pub mod Quote
mod Tests
use scomp_agent.Common.{
  lookup, ℕ, zero, suc, ◌+◌, ◌-◌, ◌*◌, ◌/◌, ◌<◌, Bool, true, false, not, ◌&&◌, ◌||◌, Option, none,
  some, List, [], ◌∷◌, ◌++◌, leb, ◌==◌, if◌then◌else◌, Bytes, length, Map, set, text,
}
use scomp_agent.Term.Render.{decimal}

pub record Word : Type 0 where
  pub content : Bytes
  pub glob : Bool

pub data SplitError : Type 0 where
  unsupported unterminated : SplitError

-- The shell's variables and its last status.
pub record Env : Type 0 where
  pub vars : Map Bytes
  pub status : ℕ

-- A variable that is not set reads as the empty string.
abbrev pub var_of : Option Bytes → Bytes
var_of none = []
var_of (some v) = v

unfoldable pub is_alpha : ℕ → Bool
is_alpha r = (leb b'a' r && leb r b'z') || (leb b'A' r && leb r b'Z')

-- The test of the loop over a name.
unfoldable pub in_name : ℕ → Bool
unfolding is_alpha
in_name r = r == b'_' || is_alpha r || (leb b'0' r && leb r b'9')

-- The name at the front, and what follows it.
unfoldable pub take_name : Bytes → Bytes × Bytes
unfolding in_name
take_name [] = ([], [])
take_name (r ∷ p) =
    let (name, rest) = take_name p in if in_name r then (r ∷ name, rest) else ([], r ∷ p)

-- What stands before the closing brace and behind it, if there is one.
unfoldable pub take_braced : Bytes → Option (Bytes × Bytes)
take_braced [] = none
take_braced (r ∷ p) =
    let more = take_braced p in
    if r == b'}'
    then some ([], p)
    else elim more [ none ↦ none | some (name, rest) ↦ some (r ∷ name, rest) ]

-- What `expand` writes and the runes behind the last one it reads, or its error.
pub data Expansion : Type 0 where
  written : Bytes → Bytes → Expansion
  refused : SplitError → Expansion

pub braced : Env → Option (Bytes × Bytes) → Expansion
braced env none = refused unterminated
braced env (some (name, rest)) = written (var_of (lookup name env.vars)) rest

pub named : Env → Bytes × Bytes → Expansion
named env (name, rest) = written (var_of (lookup name env.vars)) rest

-- `expand`, for the runes behind the dollar sign.
unfoldable pub expand : Env → Bytes → Expansion
unfolding is_alpha take_name take_braced braced named
expand env [] = written (b'$' ∷ []) []
expand env (next ∷ p) =
    if next == b'('
    then refused unsupported
    else if next == b'?'
    then written (decimal env.status) p
    else if next == b'$'
    then written (text "2214") p
    else if next == b'{'
    then braced env (take_braced p)
    else if next == b'_' || is_alpha next
    then named env (take_name (next ∷ p))
    else written (b'$' ∷ []) (next ∷ p)

-- `quote` is 0 outside of quotes.
pub record Scan : Type 0 where
  pub words : List Word
  pub cur : Bytes
  pub in_word : Bool
  pub glob : Bool
  pub quote : ℕ

abbrev pub fresh : Scan
fresh = record { words = []; cur = []; in_word = false; glob = false; quote = 0 }

unfoldable pub close_up : Scan → Scan
close_up s = record {
  words = if s.in_word then s.words ++ record { content = s.cur; glob = s.glob } ∷ [] else s.words;
  cur = [];
  in_word = false;
  glob = false;
  quote = s.quote;
}

abbrev pub push : ℕ → Scan → Scan
push r s = record s { cur = s.cur ++ r ∷ [] }

unfoldable pub has_rune : Bytes → ℕ → Bool
has_rune [] r = false
has_rune (c ∷ set) r = c == r || has_rune set r

-- What one round of the loop leads to.
pub data Next : Type 0 where
  go : Scan → Bytes → Next
  stop : List Word → Next
  fail : SplitError → Next

pub expanded : Scan → Expansion → Next
expanded s (written out rest) = go (record s { cur = s.cur ++ out }) rest
expanded s (refused e) = fail e

-- A backslash takes the next rune as it is, if there is one.
pub escaped : Scan → Bytes → Next
escaped s [] = go s []
escaped s (r ∷ p) = go (push r s) p

in_single : Scan → ℕ → Bytes → Next
in_single s r p = if r == b'\'' then go (record s { quote = 0 }) p else go (push r s) p

-- The next rune is one that a backslash escapes inside double quotes.
escapes : Bytes → Bool
unfolding has_rune
escapes [] = false
escapes (r ∷ p) = has_rune (b'"' ∷ b'\\' ∷ b'$' ∷ b'`' ∷ []) r

in_double : Env → Scan → ℕ → Bytes → Next
unfolding escapes escaped expanded expand
in_double env s r p =
    if r == b'"'
    then go (record s { quote = 0 }) p
    else if r == b'\\' && escapes p
    then escaped s p
    else if r == b'`'
    then fail unsupported
    else if r == b'$'
    then expanded s (expand env p)
    else go (push r s) p

-- A tilde here stands for the home directory.
tilde_ends : Bytes → Bool
tilde_ends [] = true
tilde_ends (r ∷ p) = r == b'/' || r == b' '

unquoted : Env → Scan → ℕ → Bytes → Next
unfolding close_up has_rune escaped expanded expand tilde_ends
unquoted env s r p =
    if r == b' ' || r == b'\t'
    then go (close_up s) p
    else if r == b'#' && not s.in_word
    then stop (close_up s).words
    else if r == b'\'' || r == b'"'
    then go (record s { quote = r; in_word = true }) p
    else if r == b'\\'
    then escaped (record s { in_word = true }) p
    else if has_rune (text "|;&<>`()") r
    then fail unsupported
    else if r == b'$'
    then expanded (record s { in_word = true }) (expand env p)
    else if r == b'~' && not s.in_word && tilde_ends p
    then go (record s { in_word = true; cur = s.cur ++ var_of (lookup (text "HOME") env.vars) }) p
    else go
        (push r (record s {
          in_word = true;
          glob = if r == b'*' || r == b'?' || r == b'[' then true else s.glob;
        }))
        p

-- One round of the loop, for the rune `r` with `p` behind it.
unfoldable pub step : Env → Scan → ℕ → Bytes → Next
unfolding in_single in_double unquoted
step env s r p =
    if s.quote == b'\''
    then in_single s r p
    else if s.quote == b'"'
    then in_double env s r p
    else unquoted env s r p

pub data Outcome : Type 0 where
  ok : List Word → Outcome
  err : SplitError → Outcome
  out_of_fuel : Outcome

-- Behind the last rune.
unfoldable pub finish : Scan → Outcome
unfolding close_up
finish s = if s.quote == 0 then ok (close_up s).words else err unterminated

-- The loop. A round may read several runes, so each round takes one unit of fuel.
unfoldable pub split_from : Env → ℕ → Scan → Bytes → Outcome
split_from env fuel s [] = finish s
split_from env zero s (r ∷ p) = out_of_fuel
split_from env (suc fuel) s (r ∷ p) = elim (step env s r p) [
  | go s' p' ↦ split_from env fuel s' p'
  | stop words ↦ ok words
  | fail e ↦ err e
]

unfoldable pub split : Env → Bytes → Outcome
unfolding split_from
split env line = split_from env (length line) fresh line
