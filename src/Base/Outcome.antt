-- ===== src/Base/Outcome.antt =====
-- What a JavaScript function that may throw returns. The loops of the model that take fuel have one
-- more outcome, which their callers prove impossible.
use mathlib.Core.Bool.{Bool, true, false}
use mathlib.Core.Path.{◌≡◌, refl}
use zlux_server_framework.Base.Tests.{if◌then◌else◌}

pub data Outcome {ℓ} (E : Type 0) (A : Type ℓ) : Type ℓ where
  ok : A → Outcome E A
  raised : E → Outcome E A
  out_of_fuel : Outcome E A

infixl 5 ◌>>=◌
abbrev pub ◌>>=◌ {ℓ κ} :
    {E : Type 0} {A : Type ℓ} {B : Type κ} → Outcome E A → (A → Outcome E B) → Outcome E B
ok a >>= f = f a
raised e >>= f = raised e
out_of_fuel >>= f = out_of_fuel

-- The first half of a chain that returned has returned too.
pub >>=-eq-ok {ℓ κ} :
    {E : Type 0} {A : Type ℓ} {B : Type κ} (first : Outcome E A) (next : A → Outcome E B) {b : B}
    → (first >>= next) ≡ ok b
    → (value : A) × (first ≡ ok value) × (next value ≡ ok b)
>>=-eq-ok (ok value) next returned = (value, refl, returned)
>>=-eq-ok (raised fault) next returned = cc
>>=-eq-ok out_of_fuel next returned = cc

-- The outcome is not a lack of fuel.
abbrev pub Ends {ℓ} : {E : Type 0} {A : Type ℓ} → Outcome E A → Type 0
Ends (ok a) = Unit
Ends (raised e) = Unit
Ends out_of_fuel = ⊥

pub Ends-bind {ℓ κ} :
    {E : Type 0} {A : Type ℓ} {B : Type κ} (m : Outcome E A) (f : A → Outcome E B)
    → Ends m
    → ((a : A) → m ≡ ok a → Ends (f a))
    → Ends (m >>= f)
Ends-bind (ok a) f hm hf = hf a refl
Ends-bind (raised e) f hm hf = tt
Ends-bind out_of_fuel f hm hf = hm

pub Ends-if {ℓ} :
    {E : Type 0} {A : Type ℓ} (b : Bool) (m n : Outcome E A)
    → Ends m
    → Ends n
    → Ends (if b then m else n)
Ends-if true m n hm hn = hm
Ends-if false m n hm hn = hn

-- The value of an outcome, where there is one.
abbrev pub ok_or {ℓ} : {E : Type 0} {A : Type ℓ} → A → Outcome E A → A
ok_or a (ok b) = b
ok_or a (raised e) = a
ok_or a out_of_fuel = a
