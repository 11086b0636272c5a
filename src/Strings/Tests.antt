-- ===== src/Strings/Tests.antt =====
-- The string functions at concrete inputs.
use scomp_agent.Common.{◌≡◌, refl, [], ◌∷◌, text}
use scomp_agent.Strings.{
  fields, onto_first, split_at, fields_from, contains, strip_left, strip_right, trim,
}
use scomp_agent.Term.Line.{is_space}

fields-tabs : fields (text " ab\tc  d ") ≡ text "ab" ∷ text "c" ∷ text "d" ∷ []
unfolding fields fields_from is_space
fields-tabs = refl

split_at-lines : split_at b'\n' (text "a\n\nb") ≡ text "a" ∷ [] ∷ text "b" ∷ []
unfolding split_at onto_first
split_at-lines = refl

trim-status : trim (text "()") (text "(Attached)") ≡ text "Attached"
unfolding trim strip_left strip_right contains
trim-status = refl
