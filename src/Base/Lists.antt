-- ===== src/Base/Lists.antt =====
-- Lists measured by native numbers, and lists of names.
use Prim.Native.Nat.{ℕ, suc, ◌+◌}
use Prim.Native.String.{String}
use mathlib.Core.Path.{◌≡◌, refl}
use mathlib.Core.Bool.{Bool, true, false, ◌||◌}
use mathlib.Core.List.{List, [], ◌∷◌, ◌++◌, Memᴰ}
use native.Mathlib.Omega.{arith}
use text.Mathlib.Text.{◌==◌}

module _ {ℓ} {A : Type ℓ} where
  abbrev pub length : List A → ℕ
  length [] = 0
  length (x ∷ xs) = suc (length xs)

  pub length-append : (xs ys : List A) → length (xs ++ ys) ≡ length xs + length ys
  length-append [] ys = omega arith
  length-append (x ∷ xs) ys = omega (arith, length-append xs ys)

  -- Each element of the list satisfies `P`.
  abbrev pub All {κ} : (A → Type κ) → List A → Type κ
  All P [] = Unit
  All P (x ∷ xs) = P x × All P xs

  pub All-append {κ} :
      (Q : A → Type κ) (front back : List A) → All Q front → All Q back → All Q (front ++ back)
  All-append Q [] back f b = b
  All-append Q (a ∷ front) back f b = (f.0, All-append Q front back f.1 b)

  pub All-map {κ μ} :
      (P : A → Type κ) (Q : A → Type μ) (xs : List A) → ((x : A) → P x → Q x) → All P xs → All Q xs
  All-map P Q [] f h = tt
  All-map P Q (x ∷ xs) f h = (f x h.0, All-map P Q xs f h.1)

  pub All-of_mem {κ} : {P : A → Type κ} (l : List A) → ((a : A) → Memᴰ a l → P a) → All P l
  All-of_mem [] h = tt
  All-of_mem (x ∷ l) h = (h x (Memᴰ.head refl), All-of_mem l (λ a m. h a (Memᴰ.tail m)))

  pub All_at_mem {κ} : (P : A → Type κ) (l : List A) (a : A) → All P l → Memᴰ a l → P a
  All_at_mem P [] a h m = elim m [ ]
  All_at_mem P (x ∷ l) a h (Memᴰ.head same) = rw same h.0
  All_at_mem P (x ∷ l) a h (Memᴰ.tail m) = All_at_mem P l a h.1 m

  pub Memᴰ-cons_ind {κ} :
      (P : A → Type κ) (x : A) (l : List A)
      → P x
      → ((a : A) → Memᴰ a l → P a)
      → (a : A) → Memᴰ a (x ∷ l)
      → P a
  Memᴰ-cons_ind P x l hx hl a (Memᴰ.head same) = rw same hx
  Memᴰ-cons_ind P x l hx hl a (Memᴰ.tail m) = hl a m

abbrev pub member : String → List String → Bool
member x [] = false
member x (y ∷ ys) = x == y || member x ys

pub member-append :
    (x : String) (xs ys : List String) → member x (xs ++ ys) ≡ (member x xs || member x ys)
member-append x [] ys = refl
member-append x (y ∷ xs) ys = ground (arith, member-append x xs ys)

-- No name stands twice.
abbrev pub Distinct : List String → Type 0
Distinct [] = Unit
Distinct (x ∷ xs) = (member x xs ≡ false) × Distinct xs

-- `y` stands in the list behind the first `x`.
abbrev pub before : String → String → List String → Bool
before x y [] = false
before x y (z ∷ zs) = elim (x == z) [ true ↦ member y zs | false ↦ before x y zs ]

pub member_of_before : (x y : String) (l : List String) → before x y l ≡ true → member y l ≡ true
member_of_before x y [] h = cc
member_of_before x y (z ∷ l) h = ground (arith, member_of_before x y l)
