-- ===== src/Base/Outcome.antt =====
-- The result of code that may panic, or of a `while` loop that is given fuel.
use mathlib.Core.Path.{◌≡◌, refl}

pub data Outcome (A : Type 0) : Type 0 where
  done : A → Outcome A
  panic : Outcome A
  out_of_fuel : Outcome A

infixl 5 ◌>>=◌
abbrev pub ◌>>=◌ : {A B : Type 0} → Outcome A → (A → Outcome B) → Outcome B
done a >>= k = k a
panic >>= k = panic
out_of_fuel >>= k = out_of_fuel

abbrev pub map_outcome : {A B : Type 0} → (A → B) → Outcome A → Outcome B
map_outcome f m = m >>= λ a. done (f a)

pub map_outcome_bind :
    {A B C : Type 0} (f : B → C) (m : Outcome A) (k : A → Outcome B)
    → map_outcome f (m >>= k) ≡ (m >>= λ a. map_outcome f (k a))
map_outcome_bind f (done a) k = refl
map_outcome_bind f panic k = refl
map_outcome_bind f out_of_fuel k = refl

pub map_outcome-eq-done :
    {A B : Type 0} (f : A → B) (m : Outcome A) (b : B)
    → map_outcome f m ≡ done b
    → (a : A) × (m ≡ done a) × (f a ≡ b)
map_outcome-eq-done f (done a) b h = (a, refl, cc)
map_outcome-eq-done f panic b h = cc
map_outcome-eq-done f out_of_fuel b h = cc

pub >>=-eq-done :
    {A B : Type 0} (m : Outcome A) (k : A → Outcome B) {b : B}
    → (m >>= k) ≡ done b
    → (a : A) × (m ≡ done a) × (k a ≡ done b)
>>=-eq-done (done a) k h = (a, refl, h)
>>=-eq-done panic k h = cc
>>=-eq-done out_of_fuel k h = cc
