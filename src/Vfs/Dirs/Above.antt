-- ===== src/Vfs/Dirs/Above.antt =====
-- The parent of a clean path.
use scomp_agent.Common.{
  equal, ◌+◌, ◌≤◌, ◌≡◌, refl, sym, ap, ◌∙◌, Bool, true, false, not, ◌&&◌, ◌||◌, List, [], ◌∷◌, ◌++◌,
  append-nil, append_assoc, arith, ltb, ◌==◌, Bytes, length, length-append, eq-nil_of_length,
  equal_iff,
}
use scomp_agent.Vfs.Paths.{
  prepend, elements, dot, dot_dot, pushed, clean_from, joined, split_last, is_rooted, clean, dir,
}
use scomp_agent.Vfs.Resolve.{NoSlash, IsName, AllNames}

pub joined-append :
    (t s e : Bytes) (es : List Bytes) → joined (t ++ s) (e ∷ es) ≡ joined t (e ∷ es) ++ s
unfolding joined
joined-append t s e [] = sym (append_assoc e t s)
joined-append t s e (e' ∷ es) =
    ap (λ x. joined (b'/' ∷ x) (e' ∷ es)) (sym (append_assoc e t s))
    ∙ joined-append (b'/' ∷ (e ++ t)) s e' es

split_last_name : (e : Bytes) → NoSlash e → split_last e ≡ ([], e)
unfolding split_last
split_last_name [] h = refl
split_last_name (b ∷ e) (ne, h) = rw (split_last_name e h, ne) refl

split_last_slash : (a e : Bytes) → NoSlash e → split_last (a ++ b'/' ∷ e) ≡ (a ++ b'/' ∷ [], e)
unfolding split_last
split_last_slash [] e h = rw (split_last_name e h) refl
split_last_slash (c ∷ a) e h =
    let longer : (c == b'/' || ltb 0 (length (a ++ b'/' ∷ []))) ≡ true =
      ground (arith, length-append {0} a (b'/' ∷ [])) in
    rw (split_last_slash a e h, longer) refl

elements_name : (e s : Bytes) → NoSlash e → elements (e ++ b'/' ∷ s) ≡ e ∷ elements s
unfolding elements prepend
elements_name [] s h = refl
elements_name (b ∷ e) s (ne, h) = rw (ne, elements_name e s h) refl

pub pushed_name : (out : List Bytes) (e : Bytes) → IsName e → pushed true out e ≡ e ∷ out
unfolding pushed
pushed_name out e (ne, nd, ndd, ns) =
    ground (arith, equal_iff e dot, equal_iff e dot_dot, eq-nil_of_length {0} e)

pub clean_from-joined :
    (t e : Bytes) (es : List Bytes)
    → AllNames (e ∷ es)
    → clean_from true (elements (joined (b'/' ∷ t) (e ∷ es))) []
      ≡ clean_from true (elements t) (e ∷ es)
unfolding clean_from joined
clean_from-joined t e [] (n, h) =
    ap (λ l. clean_from true l []) (elements_name e t n.3)
    ∙ ap (clean_from true (elements t)) (pushed_name [] e n)
clean_from-joined t e (e' ∷ es) (n, h) =
    clean_from-joined (e ++ b'/' ∷ t) e' es h
    ∙ ap (λ l. clean_from true l (e' ∷ es)) (elements_name e t n.3)
    ∙ ap (clean_from true (elements t)) (pushed_name (e' ∷ es) e n)

clean_names :
    (out : List Bytes) → AllNames out → clean (b'/' ∷ joined (b'/' ∷ []) out) ≡ b'/' ∷ joined [] out
unfolding clean elements clean_from pushed joined is_rooted
clean_names [] h = refl
clean_names (e ∷ es) h = ap (λ l. b'/' ∷ joined [] l) (clean_from-joined [] e es h)

root_is_clean : clean (b'/' ∷ []) ≡ b'/' ∷ []
unfolding clean elements prepend clean_from pushed joined is_rooted
root_is_clean = refl

pub dir_root : dir (b'/' ∷ []) ≡ b'/' ∷ []
unfolding split_last
dir_root = root_is_clean

pub dir_of_dot : dir dot ≡ dot
unfolding split_last clean elements clean_from pushed joined is_rooted equal
dir_of_dot = refl

pub dir_empty : dir [] ≡ dot
unfolding split_last clean elements clean_from pushed joined is_rooted equal
dir_empty = refl

pub climbs : (a b : Bool) → (not a && b) ≡ true → a ≡ false
climbs true b h = sym h
climbs false b h = refl

-- The parent of a clean path.
pub dir-joined :
    (e : Bytes) (es : List Bytes)
    → AllNames (e ∷ es)
    → dir (b'/' ∷ joined [] (e ∷ es)) ≡ b'/' ∷ joined [] es
unfolding joined
dir-joined e [] (n, h) =
    ap (λ x. dir (b'/' ∷ x)) (append-nil e)
    ∙ ap (λ x. clean x.0) (split_last_slash [] e n.3)
    ∙ root_is_clean
dir-joined e (e' ∷ es) (n, h) =
    ap (λ x. dir (b'/' ∷ joined (b'/' ∷ x) (e' ∷ es))) (append-nil e)
    ∙ ap (λ x. dir (b'/' ∷ x)) (joined-append [] (b'/' ∷ e) e' es)
    ∙ ap (λ x. clean x.0) (split_last_slash (b'/' ∷ joined [] (e' ∷ es)) e n.3)
    ∙ ap (λ x. clean (b'/' ∷ x)) (sym (joined-append [] (b'/' ∷ []) e' es))
    ∙ clean_names (e' ∷ es) h

pub length-joined :
    (t : Bytes) (out : List Bytes) → AllNames out → length out + length t ≤ length (joined t out)
unfolding joined
length-joined t [] h = omega arith
length-joined t (e ∷ []) (n, h) = ground (arith, length-append {0} e t, eq-nil_of_length {0} e, n.0)
length-joined t (e ∷ e' ∷ es) (n, h) =
    omega (arith, length-append {0} e t, length-joined (b'/' ∷ (e ++ t)) (e' ∷ es) h)
