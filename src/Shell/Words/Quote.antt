-- ===== src/Shell/Words/Quote.antt =====
-- Quoting a word for the shell, and that splitting takes the quotes off again.
use scomp_agent.Common.{
  ℕ, ◌≡◌, refl, sym, ap, ◌∙◌, inl, inr, true, false, List, [], ◌∷◌, ◌++◌, map, append-nil,
  append_assoc, ◌==◌, if◌then◌else◌, ==_iff, Bool-cases, Bytes,
}
use scomp_agent.Shell.Words.Fuel.{scan, scan-step, continue}
use scomp_agent.Shell.Words.{
  Word, Env, close_up, Scan, fresh, go, in_single, unquoted, escaped, step, ok, split, finish,
  split_from,
}

-- The text with each single quote as `'\''`, inside single quotes.
unfoldable pub quoted : Bytes → Bytes
quoted [] = b'\'' ∷ []
quoted (r ∷ p) =
    let rest = quoted p in if r == b'\'' then b'\'' ∷ b'\\' ∷ b'\'' ∷ b'\'' ∷ rest else r ∷ rest

abbrev pub quote : Bytes → Bytes
quote w = b'\'' ∷ quoted w

-- Words with a blank behind each.
unfoldable pub line_of : List Bytes → Bytes
line_of [] = []
line_of (w ∷ ws) = quote w ++ b' ' ∷ line_of ws

abbrev pub plain : Bytes → Word
plain w = record { content = w; glob = false }

abbrev quoting : List Word → Bytes → Scan
quoting words cur = record { words = words; cur = cur; in_word = true; glob = false; quote = b'\'' }

abbrev between : List Word → Bytes → Scan
between words cur = record { words = words; cur = cur; in_word = true; glob = false; quote = 0 }

step_quote :
    (env : Env) (words : List Word) (cur p : Bytes)
    → step env (quoting words cur) b'\'' p ≡ go (between words cur) p
unfolding step in_single
step_quote env words cur p = refl

step_inside :
    (env : Env) (words : List Word) (cur p : Bytes) (r : ℕ)
    → (r == b'\'') ≡ false
    → step env (quoting words cur) r p ≡ go (quoting words (cur ++ r ∷ [])) p
unfolding step in_single
step_inside env words cur p r other = rw other refl

step_escape :
    (env : Env) (words : List Word) (cur p : Bytes) (r : ℕ)
    → step env (between words cur) b'\\' (r ∷ p) ≡ go (between words (cur ++ r ∷ [])) p
unfolding step unquoted escaped
step_escape env words cur p r = refl

step_reopen :
    (env : Env) (words : List Word) (cur p : Bytes)
    → step env (between words cur) b'\'' p ≡ go (quoting words cur) p
unfolding step unquoted
step_reopen env words cur p = refl

step_blank :
    (env : Env) (words : List Word) (cur p : Bytes)
    → step env (between words cur) b' ' p ≡ go (record fresh { words = words ++ plain cur ∷ [] }) p
unfolding step unquoted close_up
step_blank env words cur p = refl

step_open :
    (env : Env) (words : List Word) (p : Bytes)
    → step env (record fresh { words = words }) b'\'' p ≡ go (quoting words []) p
unfolding step unquoted
step_open env words p = refl

scan_go :
    (env : Env) (s : Scan) (r : ℕ) (p : Bytes) (s' : Scan) (p' : Bytes)
    → step env s r p ≡ go s' p'
    → scan env s (r ∷ p) ≡ scan env s' p'
scan_go env s r p s' p' e = scan-step env s r p ∙ ap (continue (scan env)) e

scan_escape :
    (env : Env) (words : List Word) (cur p : Bytes)
    → scan env (quoting words cur) (b'\'' ∷ b'\\' ∷ b'\'' ∷ b'\'' ∷ p)
      ≡ scan env (quoting words (cur ++ b'\'' ∷ [])) p
scan_escape env words cur p =
    scan_go env (quoting words cur) b'\'' _ _ _ (step_quote env words cur _)
    ∙ scan_go env (between words cur) b'\\' _ _ _ (step_escape env words cur (b'\'' ∷ p) b'\'')
    ∙ scan_go env (between words (cur ++ b'\'' ∷ [])) b'\'' _ _ _
        (step_reopen env words (cur ++ b'\'' ∷ []) p)

scan-quoted :
    (env : Env) (words : List Word) (w cur rest : Bytes)
    → scan env (quoting words cur) (quoted w ++ rest) ≡ scan env (between words (cur ++ w)) rest
unfolding quoted
scan-quoted env words [] cur rest =
    scan_go env (quoting words cur) b'\'' rest _ _ (step_quote env words cur rest)
    ∙ ap (λ c. scan env (between words c) rest) (sym (append-nil cur))
scan-quoted env words (r ∷ w) cur rest =
    let ih = scan-quoted env words w (cur ++ r ∷ []) rest in
    let shift : cur ++ (r ∷ []) ++ w ≡ cur ++ r ∷ w = append_assoc cur (r ∷ []) w in
    elim (Bool-cases (r == b'\'')) [
      | inl same ↦ rw same (
          scan_escape env words cur (quoted w ++ rest)
          ∙ ap (λ c. scan env (quoting words (cur ++ c ∷ [])) (quoted w ++ rest))
              (sym ((==_iff r b'\'').0 same))
          ∙ ih
          ∙ ap (λ c. scan env (between words c) rest) shift)
      | inr other ↦ rw other (
          scan_go env (quoting words cur) r (quoted w ++ rest) _ _
            (step_inside env words cur _ r other)
          ∙ ih
          ∙ ap (λ c. scan env (between words c) rest) shift)
    ]

scan-line_of :
    (env : Env) (ws : List Bytes) (words : List Word)
    → scan env (record fresh { words = words }) (line_of ws) ≡ ok (words ++ map plain ws)
unfolding line_of scan split_from finish close_up
scan-line_of env [] words = ap ok (sym (append-nil words))
scan-line_of env (w ∷ ws) words =
    scan_go env (record fresh { words = words }) b'\'' _ _ _ (step_open env words _)
    ∙ scan-quoted env words w [] (b' ' ∷ line_of ws)
    ∙ scan_go env (between words w) b' ' _ _ _ (step_blank env words w (line_of ws))
    ∙ scan-line_of env ws (words ++ plain w ∷ [])
    ∙ ap ok (append_assoc words (plain w ∷ []) (map plain ws))

-- Whatever its runes, a list of words that are put in single quotes, with `'\''` for each single
-- quote and a blank behind each word, is split into just these words, none of them a pattern:
-- nothing in them is expanded, refused or split.
pub split-line_of : (env : Env) (ws : List Bytes) → split env (line_of ws) ≡ ok (map plain ws)
unfolding split scan
split-line_of env ws = scan-line_of env ws []
