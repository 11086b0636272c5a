-- ===== src/Shell/Layout/Wrap.antt =====
-- Wrapping a text keeps its words.
use scomp_agent.Common.{
  ℕ, ◌+◌, ◌<◌, ◌≡◌, refl, inl, inr, true, false, ◌&&◌, List, [], ◌∷◌, ◌++◌, append-nil, arith, ltb,
  if◌then◌else◌, lt→ltb, Bool-cases, Bytes, length,
}
use scomp_agent.Strings.{fields, is_nil, fields_from}
use scomp_agent.Term.Line.{is_space}
use scomp_agent.Shell.Layout.{wrap_text, wrap_from}

-- The word has no space in it.
abbrev NoSpace : Bytes → Type 0
NoSpace [] = Unit
NoSpace (r ∷ w) = (is_space r ≡ false) × NoSpace w

abbrev AllWords : List Bytes → Type 0
AllWords [] = Unit
AllWords (w ∷ ws) = (is_nil w ≡ false) × NoSpace w × AllWords ws

AllWords-more :
    (w : Bytes) (ws : List Bytes)
    → NoSpace w
    → AllWords ws
    → AllWords (if is_nil w then ws else w ∷ ws)
AllWords-more [] ws n h = h
AllWords-more (r ∷ w) ws n h = (refl, n, h)

fields_from-AllWords : (s : Bytes) → NoSpace (fields_from s).0 × AllWords (fields_from s).1
unfolding fields_from
fields_from-AllWords [] = (tt, tt)
fields_from-AllWords (r ∷ s) =
    let (n, h) = fields_from-AllWords s in
    elim (Bool-cases (is_space r)) [
      | inl b ↦ rw b (tt, AllWords-more (fields_from s).0 (fields_from s).1 n h)
      | inr b ↦ rw b ((b, n), h)
    ]

fields-AllWords : (s : Bytes) → AllWords (fields s)
unfolding fields
fields-AllWords s =
    let (n, h) = fields_from-AllWords s in AllWords-more (fields_from s).0 (fields_from s).1 n h

fields_from-append :
    (w t : Bytes) → NoSpace w → fields_from (w ++ t) ≡ (w ++ (fields_from t).0, (fields_from t).1)
unfolding fields_from
fields_from-append [] t h = refl
fields_from-append (r ∷ w) t (n, h) = rw (n, fields_from-append w t h) refl

-- What starts with a space, and then has a word that ends before what has `ws` for its words.
fields_from_word :
    (r : ℕ) (w t : Bytes) (ws : List Bytes)
    → is_space r ≡ true
    → is_nil w ≡ false
    → NoSpace w
    → fields_from t ≡ ([], ws)
    → fields_from (r ∷ w ++ t) ≡ ([], w ∷ ws)
unfolding fields_from
fields_from_word r w t ws blank some_word solid rest =
    rw (fields_from-append w t solid, rest, append-nil w, blank, some_word) refl

some_length : (w : Bytes) → is_nil w ≡ false → 0 < length w
some_length [] h = let e : true ≡ false = h in cc
some_length (r ∷ w) h = omega arith

fields_from-wrap_from :
    (width col : ℕ) (ws : List Bytes)
    → 0 < col
    → AllWords ws
    → fields_from (wrap_from width col ws) ≡ ([], ws)
unfolding wrap_from fields_from is_space
fields_from-wrap_from width col [] pos h = refl
fields_from-wrap_from width col (w ∷ ws) pos (some_word, solid, h) =
    let long = some_length w some_word in
    elim (Bool-cases (ltb 0 col && ltb width (col + 1 + length w))) [
      | inl b ↦ rw b (
          fields_from_word b'\n' w (wrap_from width (length w) ws) ws refl some_word solid
            (fields_from-wrap_from width (length w) ws long h))
      | inr b ↦
          rw (b, lt→ltb 0 col pos)
            (fields_from_word b' ' w (wrap_from width (col + 1 + length w) ws) ws refl some_word
              solid (fields_from-wrap_from width (col + 1 + length w) ws (omega arith) h))
    ]

fields-wrap_from : (width : ℕ) (ws : List Bytes) → AllWords ws → fields (wrap_from width 0 ws) ≡ ws
unfolding wrap_from fields fields_from is_space
fields-wrap_from width [] h = refl
fields-wrap_from width (w ∷ ws) (some_word, solid, h) =
    rw
      (
        fields_from-append w (wrap_from width (0 + length w) ws) solid,
        fields_from-wrap_from width (0 + length w) ws (omega (arith, some_length w some_word)) h,
        append-nil w,
        some_word,
      )
      refl

-- However narrow the window, wrapping a text keeps its words and their order, and adds none.
pub fields-wrap_text : (s : Bytes) (width : ℕ) → fields (wrap_text s width) ≡ fields s
unfolding wrap_text
fields-wrap_text s width = fields-wrap_from _ (fields s) (fields-AllWords s)
