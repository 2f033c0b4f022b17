-- ===== src/Base/Text.antt =====
-- Texts as lists of code units, with the string functions that the program uses.
use Prim.Native.Nat.{ℕ, zero, suc, ◌-◌}
use Prim.Native.Char.{code}
use Prim.Native.String.{String}
use mathlib.Core.Bool.{Bool, true, false, ◌&&◌}
use mathlib.Core.Option.{Option, none, some}
use mathlib.Core.List.{List, [], ◌∷◌, ◌++◌}
use zlux_server_framework.Base.Tests.{if◌then◌else◌, nat_eq, leb}

abbrev pub Text : Type 0
Text = List ℕ

-- The code units of a literal.
abbrev pub text : String → Text
text String.[] = []
text (String.◌∷◌ c s) = code c ∷ text s

-- `s === t`
unfoldable pub same_text : Text → Text → Bool
same_text [] [] = true
same_text [] (d ∷ t) = false
same_text (c ∷ s) [] = false
same_text (c ∷ s) (d ∷ t) = nat_eq c d && same_text s t

-- `t.startsWith(s)`
unfoldable pub has_prefix : Text → Text → Bool
has_prefix [] t = true
has_prefix (c ∷ s) [] = false
has_prefix (c ∷ s) (d ∷ t) = nat_eq c d && has_prefix s t

unfoldable pub add_to_first : ℕ → List Text → List Text
add_to_first c [] = (c ∷ []) ∷ []
add_to_first c (part ∷ parts) = (c ∷ part) ∷ parts

-- `t.split(sep)` for a separator of one unit
unfoldable pub split_on : ℕ → Text → List Text
unfolding add_to_first
split_on sep [] = [] ∷ []
split_on sep (c ∷ t) =
    let parts = split_on sep t in if nat_eq c sep then [] ∷ parts else add_to_first c parts

-- `parts.join(sep)`
unfoldable pub join_with : Text → List Text → Text
join_with sep [] = []
join_with sep (part ∷ []) = part
join_with sep (part ∷ next ∷ parts) = part ++ (sep ++ join_with sep (next ∷ parts))

-- `t.toUpperCase()` on the letters of ASCII
unfoldable pub upper : Text → Text
upper [] = []
upper (c ∷ t) = (if leb b'a' c && leb c b'z' then c - 32 else c) ∷ upper t

-- `parts[i]`, undefined out of range
unfoldable pub nth : ℕ → List Text → Option Text
nth i [] = none
nth zero (part ∷ parts) = some part
nth (suc i) (part ∷ parts) = nth i parts

-- `parts.slice(n)`
unfoldable pub slice_from : ℕ → List Text → List Text
slice_from zero parts = parts
slice_from (suc n) [] = []
slice_from (suc n) (part ∷ parts) = slice_from n parts

-- `parts.filter(x => x)`
unfoldable pub non_empty : List Text → List Text
non_empty [] = []
non_empty ([] ∷ parts) = non_empty parts
non_empty ((c ∷ t) ∷ parts) = (c ∷ t) ∷ non_empty parts
