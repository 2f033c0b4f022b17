-- ===== src/Base/Erase.antt =====
-- Lists of names with every copy of a name taken out.
use Prim.Native.Nat.{◌≤◌, ◌<◌}
use Prim.Native.String.{String}
use mathlib.Core.Path.{◌≡◌, refl, ap}
use mathlib.Core.Bool.{true, false}
use mathlib.Core.List.{List, [], ◌∷◌, ◌++◌}
use native.Mathlib.Omega.{arith}
use text.Mathlib.Text.{◌==◌}
use text.Mathlib.TextEquality.{eq_iff}
use text.Mathlib.TextPositions.{eq_refl}
use zlux_server_framework.Base.Tests.{if◌then◌else◌, if_ind}
use zlux_server_framework.Base.Lists.{length, member, member-append, Distinct}

-- The list with each `sid` taken out.
unfoldable pub erase : String → List String → List String
erase sid [] = []
erase sid (x ∷ xs) = let others = erase sid xs in if x == sid then others else x ∷ others

pub erase_of_absent : (sid : String) (l : List String) → member sid l ≡ false → erase sid l ≡ l
unfolding erase
erase_of_absent sid [] h = refl
erase_of_absent sid (x ∷ xs) h = ground (arith, erase_of_absent sid xs, eq_iff x sid, eq_iff sid x)

pub member-erase :
    (sid x : String) (l : List String)
    → member x (erase sid l) ≡ (if x == sid then false else member x l)
unfolding erase
member-erase sid x [] = ground arith
member-erase sid x (y ∷ l) =
    ground (arith, member-erase sid x l, eq_iff y sid, eq_iff x y, eq_iff x sid)

pub erase-Distinct : (sid : String) (l : List String) → Distinct l → Distinct (erase sid l)
unfolding erase
erase-Distinct sid [] d = tt
erase-Distinct sid (x ∷ xs) d =
    if_ind Distinct (x == sid) (λ same. erase-Distinct sid xs d.1)
      (λ other. (ground (arith, member-erase sid x xs), erase-Distinct sid xs d.1))

pub length-erase_le : (sid : String) (l : List String) → length (erase sid l) ≤ length l
unfolding erase
length-erase_le sid [] = omega arith
length-erase_le sid (x ∷ xs) = ground (arith, length-erase_le sid xs)

pub snoc-Distinct :
    (sid : String) (l : List String) → Distinct l → member sid l ≡ false → Distinct (l ++ sid ∷ [])
snoc-Distinct sid [] d h = (refl, tt)
snoc-Distinct sid (x ∷ xs) d h = (
  ground (arith, member-append x xs (sid ∷ []), eq_iff x sid, eq_iff sid x, d.0),
  snoc-Distinct sid xs d.1 (ground arith),
)

pub length-erase_lt :
    (x : String) (q : List String) → member x q ≡ true → length (erase x q) < length q
unfolding erase
length-erase_lt x [] h = absurd (ground arith)
length-erase_lt x (y ∷ q) h =
    ground (arith, length-erase_lt x q, length-erase_le x q, eq_iff x y, eq_iff y x)

-- A list with no repetition is not longer than a list that holds all of it.
pub length_of_covered :
    (l q : List String)
    → Distinct l
    → ((j : String) → member j l ≡ true → member j q ≡ true)
    → length l ≤ length q
length_of_covered [] q d c = omega arith
length_of_covered (x ∷ l) q d c = omega (
  arith,
  length-erase_lt x q (c x (ground (arith, eq_refl x))),
  length_of_covered l (erase x q) d.1 (λ j h.
      ground (arith, member-erase x j q, c j, d.0, eq_iff j x, ap (λ (y : String). member y l))),
)
