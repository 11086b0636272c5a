-- ===== src/Common/Text.antt =====
-- Literal text as the bytes that Go's strings hold; every literal of the development is ASCII.
use Prim.Native.Char.{code}
use Prim.Native.String.{String}
use mathlib.Core.List.{[], ◌∷◌}
use scomp_agent.Common.Lists.{Bytes}

abbrev pub text : String → Bytes
text String.[] = []
text (String.◌∷◌ c s) = code c ∷ text s
