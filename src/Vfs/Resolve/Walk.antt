-- ===== src/Vfs/Resolve/Walk.antt =====
-- What a path is resolved to, by the names on it.
use scomp_agent.Common.{
  equal, ◌≡◌, refl, sym, ap, ◌∙◌, true, false, List, [], ◌∷◌, ◌++◌, append-nil, arith, Bytes,
  equal_iff,
}
use scomp_agent.Vfs.Paths.{
  prepend, elements, dot_dot, climb, pushed, clean_from, joined, is_rooted, clean, resolve, has_nul,
}
use scomp_agent.Vfs.Resolve.{NoSlash, IsName, AllNames, NoZero, NoZero-has_nul}
use scomp_agent.Vfs.Dirs.Above.{clean_from-joined, pushed_name, joined-append}

elements_last : (e : Bytes) → NoSlash e → elements (e ++ []) ≡ e ∷ []
unfolding elements prepend
elements_last [] h = refl
elements_last (b ∷ e) (ne, h) = rw (ne, elements_last e h) refl

elements_one : (e : Bytes) → NoSlash e → elements e ≡ e ∷ []
elements_one e h = ap elements (sym (append-nil e)) ∙ elements_last e h

climb_name : (e : Bytes) (out : List Bytes) → IsName e → climb true (e ∷ out) ≡ out
unfolding climb
climb_name e out n = ground (arith, equal_iff e dot_dot, n.2)

clean_from_names :
    (out : List Bytes) → AllNames out → clean_from true (elements (joined [] out)) [] ≡ out
unfolding clean_from elements pushed joined
clean_from_names [] h = refl
clean_from_names (e ∷ []) (n, h) =
    ap (λ l. clean_from true l []) (elements_last e n.3) ∙ pushed_name [] e n
clean_from_names (e ∷ e' ∷ es) (n, h) =
    clean_from-joined (e ++ []) e' es h
    ∙ ap (λ l. clean_from true l (e' ∷ es)) (elements_last e n.3)
    ∙ pushed_name (e' ∷ es) e n

abbrev pub path_of : List Bytes → Bytes
path_of out = b'/' ∷ joined [] out

resolve_rooted :
    (cwd : Bytes) (out : List Bytes)
    → AllNames out
    → NoZero (path_of out)
    → resolve cwd (path_of out) ≡ path_of out
unfolding resolve is_rooted clean elements clean_from pushed
resolve_rooted cwd out names plain =
    rw (NoZero-has_nul (path_of out) plain) (ap path_of (clean_from_names out names))

-- A path behind a directory is walked from the directory's names on.
resolve_from :
    (out : List Bytes) (p : Bytes)
    → AllNames out
    → has_nul p ≡ false
    → is_rooted p ≡ false
    → resolve (path_of out) p ≡ path_of (clean_from true (elements p) out)
unfolding resolve clean elements clean_from pushed joined is_rooted
resolve_from [] p names plain relative = rw (plain, relative) refl
resolve_from (e ∷ es) p names plain relative =
    rw (plain, relative)
      (ap path_of (
        ap (λ x. clean_from true (elements x) []) (sym (joined-append [] (b'/' ∷ p) e es))
        ∙ clean_from-joined p e es names))

relative_name : (e : Bytes) → NoSlash e → is_rooted e ≡ false
unfolding is_rooted
relative_name [] h = refl
relative_name (b ∷ e) h = h.0

-- What a path means: take a directory by its names and a name below it, all of them names that stand
-- for entries, and without zero bytes. The directory's own path is resolved to itself, wherever one
-- stands; the name is resolved to the entry below the directory; and `..` leads from that entry back
-- to the directory.
pub resolve_walk :
    (cwd : Bytes) (out : List Bytes) (e : Bytes)
    → AllNames (e ∷ out)
    → NoZero (path_of out)
    → NoZero e
    → (resolve cwd (path_of out) ≡ path_of out)
      × (resolve (path_of out) e ≡ path_of (e ∷ out))
      × (resolve (path_of (e ∷ out)) dot_dot ≡ path_of out)
unfolding elements clean_from pushed has_nul is_rooted equal
resolve_walk cwd out e (n, names) plain plain_e = (
  resolve_rooted cwd out names plain,
  resolve_from out e names (NoZero-has_nul e plain_e) (relative_name e n.3)
      ∙ ap (λ l. path_of (clean_from true l out)) (elements_one e n.3)
      ∙ ap path_of (pushed_name out e n),
  resolve_from (e ∷ out) dot_dot (n, names) refl refl ∙ ap path_of (climb_name e out n),
)
