-- ===== src/Base/Assoc.antt =====
-- JavaScript objects used as dictionaries: association lists in insertion order.
use Prim.Native.String.{String}
use mathlib.Core.Path.{◌≡◌, refl}
use mathlib.Core.Option.{Option, none, some}
use mathlib.Core.List.{List, [], ◌∷◌, ◌++◌}
use native.Mathlib.Omega.{arith}
use text.Mathlib.Text.{◌==◌}
use text.Mathlib.TextEquality.{eq_iff}
use zlux_server_framework.Base.Tests.{if◌then◌else◌}

abbrev pub Assoc {ℓ} : Type ℓ → Type ℓ
Assoc V = List (String × V)

module _ {ℓ} {V : Type ℓ} where
  unfoldable pub lookup : String → Assoc V → Option V
  lookup key [] = none
  lookup key ((name, value) ∷ dict) = if name == key then some value else lookup key dict

  -- `dict[key] = value`: a new key goes to the end.
  unfoldable pub assign : String → V → Assoc V → Assoc V
  assign key value [] = (key, value) ∷ []
  assign key value ((name, old) ∷ dict) =
      if name == key then (name, value) ∷ dict else (name, old) ∷ assign key value dict

  -- `delete dict[key]`
  unfoldable pub without : String → Assoc V → Assoc V
  without key [] = []
  without key ((name, value) ∷ dict) =
      let others = without key dict in if name == key then others else (name, value) ∷ others

  -- `Object.keys(dict)`
  unfoldable pub keys : Assoc V → List String
  keys [] = []
  keys ((name, value) ∷ dict) = name ∷ keys dict

  pub lookup-assign :
      (key other : String) (value : V) (dict : Assoc V)
      → lookup other (assign key value dict)
        ≡ (if key == other then some value else lookup other dict)
  unfolding lookup assign
  lookup-assign key other value [] = refl
  lookup-assign key other value ((name, old) ∷ dict) = ground (
    arith,
    eq_iff key other,
    eq_iff name key,
    eq_iff name other,
    lookup-assign key other value dict,
  )

  pub lookup-without :
      (key other : String) (dict : Assoc V)
      → lookup other (without key dict) ≡ (if key == other then none else lookup other dict)
  unfolding lookup without
  lookup-without key other [] = ground arith
  lookup-without key other ((name, value) ∷ dict) =
      ground
        (arith, lookup-without key other dict, eq_iff key other, eq_iff name key, eq_iff name other)

  -- One more entry at the end is seen where the key was not there before.
  pub lookup-append :
      (key other : String) (value : V) (dict : Assoc V)
      → lookup other (dict ++ (key, value) ∷ []) ≡ (elim (lookup other dict) [
        | some found ↦ some found
        | none ↦ if key == other then some value else none
      ])
  unfolding lookup
  lookup-append key other value [] = refl
  lookup-append key other value ((name, old) ∷ dict) =
      ground (arith, lookup-append key other value dict)
