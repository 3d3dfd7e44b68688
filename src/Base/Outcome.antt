-- ===== src/Base/Outcome.antt =====
-- What a run of the Rust code can come to: a value, a panic, or, in the model alone, no fuel left.
use mathlib.Core.Option.{Option, none, some}
use mathlib.Core.Path.{◌≡◌, refl}
use mathlib.Core.Logic.{◌⊎◌, inl, inr}
use mathlib.Core.Bool.{Bool, true, false}

pub data Outcome {ℓ} (A : Type ℓ) : Type ℓ where
  done : A → Outcome A
  panic : Outcome A
  out_of_fuel : Outcome A

infixl 5 ◌>>=◌ ◌>>◌
abbrev pub ◌>>=◌ {ℓ κ} : {A : Type ℓ} {B : Type κ} → Outcome A → (A → Outcome B) → Outcome B
done a >>= f = f a
panic >>= f = panic
out_of_fuel >>= f = out_of_fuel

abbrev pub ◌>>◌ {ℓ κ} : {A : Type ℓ} {B : Type κ} → Outcome A → Outcome B → Outcome B
m >> k = m >>= λ _. k

pub bind_assoc {ℓ κ μ} :
    {A : Type ℓ} {B : Type κ} {C : Type μ} (o : Outcome A) (f : A → Outcome B) (g : B → Outcome C)
    → (o >>= f >>= g) ≡ (o >>= λ a. f a >>= g)
bind_assoc (done a) f g = refl
bind_assoc panic f g = refl
bind_assoc out_of_fuel f g = refl

pub bind_done {ℓ} : {A : Type ℓ} (o : Outcome A) → (o >>= λ a. done a) ≡ o
bind_done (done a) = refl
bind_done panic = refl
bind_done out_of_fuel = refl

-- `expect`, and an index expression: `none` panics.
abbrev pub expect {ℓ} : {A : Type ℓ} → Option A → Outcome A
expect (some a) = done a
expect none = panic

abbrev pub assert : Bool → Outcome (Unit {0})
assert true = done tt
assert false = panic

-- A chain that returns went through its first step.
pub bind-done :
    {A B : Type 0} (o : Outcome A) (f : A → Outcome B) (b : B)
    → (o >>= f) ≡ done b
    → (a : A) × (o ≡ done a) × (f a ≡ done b)
bind-done (done a) f b e = (a, refl, e)
bind-done panic f b e = cc
bind-done out_of_fuel f b e = cc

pub Outcome-cases {ℓ} :
    {A : Type ℓ} (o : Outcome A) → ((a : A) × (o ≡ done a)) ⊎ (o ≡ panic) ⊎ (o ≡ out_of_fuel)
Outcome-cases (done a) = inl (a, refl)
Outcome-cases panic = inr (inl refl)
Outcome-cases out_of_fuel = inr (inr refl)
