-- ===== src/Shell/Layout/Tests.antt =====
-- Layouts at concrete inputs.
use scomp_agent.Common.{◌≡◌, refl, [], ◌∷◌, ◌++◌, text}
use scomp_agent.Strings.{fields, fields_from}
use scomp_agent.Term.Line.{is_space}
use scomp_agent.Term.Render.{visible_len}
use scomp_agent.Shell.Layout.{
  wrap_text, wrap_from, widest, name_of, row_from, rows_from, columns, strip_from, strip_ansi,
}
use scomp_agent.Shell.Layout.Wrap.{fields-wrap_text}

wrap_text-narrow :
    wrap_text (text "a simulated shell: nothing runs") 3 ≡ text "a simulated shell:\nnothing runs\n"
unfolding wrap_text wrap_from fields fields_from is_space
wrap_text-narrow = refl

columns-five :
    columns (text "a" ∷ text "bb" ∷ text "c" ∷ text "d" ∷ text "e" ∷ []) 11 (text " ")
    ≡ text " a   c   e\n bb  d\n"
unfolding columns widest rows_from row_from name_of visible_len
columns-five = refl

strip_ansi-bold : strip_ansi (0x1b ∷ text "[1mA" ++ 0x1b ∷ text "[0mb") ≡ text "Ab"
unfolding strip_ansi strip_from
strip_ansi-bold = refl

fields-wrap_text_example :
    fields (wrap_text (text "a simulated  shell") 3) ≡ fields (text "a simulated  shell")
fields-wrap_text_example = fields-wrap_text (text "a simulated  shell") 3
