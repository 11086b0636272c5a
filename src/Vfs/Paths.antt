-- ===== src/Vfs/Paths.antt =====
-- The functions of the standard library's package `path` that fakeshell/vfs/vfs.go uses, and
-- `Resolve`, `basePath` and `under`.
use scomp_agent.Common.{
  equal, ℕ, ◌-◌, Bool, true, false, not, ◌&&◌, ◌||◌, List, [], ◌∷◌, ◌++◌, ltb, leb, ◌==◌,
  if◌then◌else◌, Bytes, length, drop,
}

unfoldable pub prepend : ℕ → List Bytes → List Bytes
prepend b [] = (b ∷ []) ∷ []
prepend b (e ∷ es) = (b ∷ e) ∷ es

-- The elements between the slashes.
unfoldable pub elements : Bytes → List Bytes
unfolding prepend
elements [] = [] ∷ []
elements (b ∷ p) = if b == b'/' then [] ∷ elements p else prepend b (elements p)

abbrev pub dot : Bytes
dot = b'.' ∷ []

abbrev pub dot_dot : Bytes
dot_dot = b'.' ∷ b'.' ∷ []

-- `..`, behind the elements `out`, the last one first.
unfoldable pub climb : Bool → List Bytes → List Bytes
climb rooted [] = if rooted then [] else dot_dot ∷ []
climb rooted (top ∷ out) = if equal top dot_dot then dot_dot ∷ top ∷ out else out

-- One round of the loop of `path.Clean`.
unfoldable pub pushed : Bool → List Bytes → Bytes → List Bytes
unfolding climb
pushed rooted out e =
    if length e == 0 || equal e dot
    then out
    else if equal e dot_dot
    then climb rooted out
    else e ∷ out

unfoldable pub clean_from : Bool → List Bytes → List Bytes → List Bytes
clean_from rooted [] out = out
clean_from rooted (e ∷ es) out = clean_from rooted es (pushed rooted out e)

-- The elements in order, with slashes between them; they come last first.
unfoldable pub joined : Bytes → List Bytes → Bytes
joined tail [] = tail
joined tail (e ∷ []) = e ++ tail
joined tail (e ∷ e' ∷ es) = joined (b'/' ∷ (e ++ tail)) (e' ∷ es)

unfoldable pub is_rooted : Bytes → Bool
is_rooted [] = false
is_rooted (b ∷ p) = b == b'/'

unfoldable pub clean : Bytes → Bytes
clean p =
    let out = clean_from (is_rooted p) (elements p) [] in
    if is_rooted p then b'/' ∷ joined [] out else if length out == 0 then dot else joined [] out

-- What stands before the last slash, with it, and behind it.
unfoldable pub split_last : Bytes → Bytes × Bytes
split_last [] = ([], [])
split_last (b ∷ p) =
    let (front, back) = split_last p in
    if b == b'/' || ltb 0 (length front) then (b ∷ front, back) else (front, b ∷ back)

abbrev pub dir : Bytes → Bytes
dir p = clean (split_last p).0

strip_slashes : Bytes → Bytes
strip_slashes [] = []
strip_slashes (b ∷ p) =
    let rest = strip_slashes p in if length rest == 0 && b == b'/' then [] else b ∷ rest

unfoldable pub base : Bytes → Bytes
unfolding strip_slashes
base p =
    if length p == 0
    then dot
    else let name = (split_last (strip_slashes p)).1 in
      (if length name == 0 then b'/' ∷ [] else name)

unfoldable pub has_prefix : Bytes → Bytes → Bool
has_prefix p [] = true
has_prefix [] (b ∷ prefix) = false
has_prefix (c ∷ p) (b ∷ prefix) = c == b && has_prefix p prefix

abbrev pub slash : Bytes
slash = b'/' ∷ []

unfoldable pub has_nul : Bytes → Bool
has_nul [] = false
has_nul (b ∷ p) = b == 0 || has_nul p

unfoldable pub resolve : Bytes → Bytes → Bytes
unfolding has_nul clean
resolve cwd p =
    if has_nul p then [] else clean (b'/' ∷ (if not (is_rooted p) then cwd ++ b'/' ∷ p else p))

-- The path in the base tree.
unfoldable pub base_path : Bytes → Bytes
base_path [] = []
base_path (b ∷ p) = if equal (b ∷ p) slash then dot else if b == b'/' then p else b ∷ p

unfoldable pub under : Bytes → Bytes → Bool
under p d = equal p d || equal d slash || has_prefix p (d ++ slash)

unfoldable pub has_suffix : Bytes → Bytes → Bool
has_suffix p suffix =
    leb (length suffix) (length p) && equal (drop (length p - length suffix) p) suffix
