-- ===== src/Base/Lists.antt =====
-- `Vec` as a list, indexed by native numbers: `get`, an indexed write, `len`, `contains`.
use Prim.Native.Nat.{ℕ, zero, suc, ◌+◌, ◌<◌}
use mathlib.Core.Path.{◌≡◌, refl, ap}
use mathlib.Core.Logic.{◌≢◌}
use mathlib.Core.Bool.{Bool, true, false, ◌||◌}
use mathlib.Core.Option.{Option, none, some}
use mathlib.Core.List.{List, [], ◌∷◌, ◌++◌, map}
use native.Mathlib.Omega.{arith}
use slash.Base.Tests.{◌==◌}

module _ {ℓ} {A : Type ℓ} where
  abbrev pub length : List A → ℕ
  length [] = 0
  length (x ∷ xs) = suc (length xs)

  abbrev pub get_elem? : List A → ℕ → Option A
  get_elem? [] i = none
  get_elem? (x ∷ xs) zero = some x
  get_elem? (x ∷ xs) (suc i) = get_elem? xs i

  -- A write out of bounds changes nothing.
  abbrev pub set : List A → ℕ → A → List A
  set [] i v = []
  set (x ∷ xs) zero v = v ∷ xs
  set (x ∷ xs) (suc i) v = x ∷ set xs i v

  pub length-append : (xs ys : List A) → length (xs ++ ys) ≡ length xs + length ys
  length-append [] ys = omega arith
  length-append (x ∷ xs) ys = omega (arith, length-append xs ys)

  pub length-set : (xs : List A) (i : ℕ) (v : A) → length (set xs i v) ≡ length xs
  length-set [] i v = refl
  length-set (x ∷ xs) zero v = refl
  length-set (x ∷ xs) (suc i) v = ap suc (length-set xs i v)

  pub get_elem?-set_self :
      (xs : List A) (i : ℕ) (v : A) → i < length xs → get_elem? (set xs i v) i ≡ some v
  get_elem?-set_self [] i v h = absurd (omega arith)
  get_elem?-set_self (x ∷ xs) zero v h = refl
  get_elem?-set_self (x ∷ xs) (suc i) v h = get_elem?-set_self xs i v (omega arith)

  pub get_elem?-set_ne :
      (xs : List A) (i j : ℕ) (v : A) → i ≢ j → get_elem? (set xs i v) j ≡ get_elem? xs j
  get_elem?-set_ne [] i j v ne = refl
  get_elem?-set_ne (x ∷ xs) zero zero v ne = absurd (ne refl)
  get_elem?-set_ne (x ∷ xs) zero (suc j) v ne = refl
  get_elem?-set_ne (x ∷ xs) (suc i) zero v ne = refl
  get_elem?-set_ne (x ∷ xs) (suc i) (suc j) v ne = get_elem?-set_ne xs i j v (λ e. ne (ap suc e))

  pub get_elem?-append_left :
      (xs ys : List A) (i : ℕ) → i < length xs → get_elem? (xs ++ ys) i ≡ get_elem? xs i
  get_elem?-append_left [] ys i h = absurd (omega arith)
  get_elem?-append_left (x ∷ xs) ys zero h = refl
  get_elem?-append_left (x ∷ xs) ys (suc i) h = get_elem?-append_left xs ys i (omega arith)

  pub get_elem?-append_length :
      (xs : List A) (v : A) (i : ℕ) → i ≡ length xs → get_elem? (xs ++ v ∷ []) i ≡ some v
  get_elem?-append_length [] v zero h = refl
  get_elem?-append_length [] v (suc i) h = absurd (omega arith)
  get_elem?-append_length (x ∷ xs) v zero h = absurd (omega arith)
  get_elem?-append_length (x ∷ xs) v (suc i) h = get_elem?-append_length xs v i (omega arith)

  pub get_elem?-append_ne :
      (xs : List A) (v : A) (j : ℕ) → j ≢ length xs → get_elem? (xs ++ v ∷ []) j ≡ get_elem? xs j
  get_elem?-append_ne [] v zero ne = absurd (ne refl)
  get_elem?-append_ne [] v (suc j) ne = refl
  get_elem?-append_ne (x ∷ xs) v zero ne = refl
  get_elem?-append_ne (x ∷ xs) v (suc j) ne =
      get_elem?-append_ne xs v j (λ e. ne (ap (λ n. suc n) e))

  pub set_same : (xs : List A) (i : ℕ) (v : A) → get_elem? xs i ≡ some v → set xs i v ≡ xs
  set_same [] i v e = refl
  set_same (x ∷ xs) zero v e = let same : x ≡ v = cc in rw same refl
  set_same (x ∷ xs) (suc i) v e = rw (set_same xs i v e) refl

  pub get_elem?-some : (xs : List A) (i : ℕ) → i < length xs → (v : A) × (get_elem? xs i ≡ some v)
  get_elem?-some [] i h = absurd (omega arith)
  get_elem?-some (x ∷ xs) zero h = (x, refl)
  get_elem?-some (x ∷ xs) (suc i) h = get_elem?-some xs i (omega arith)

  pub lt-length_of_get : (xs : List A) (i : ℕ) (v : A) → get_elem? xs i ≡ some v → i < length xs
  lt-length_of_get [] i v h = ground arith
  lt-length_of_get (x ∷ xs) zero v h = omega arith
  lt-length_of_get (x ∷ xs) (suc i) v h = omega (arith, lt-length_of_get xs i v h)

pub length-map {ℓ κ} :
    {A : Type ℓ} {B : Type κ} (f : A → B) (xs : List A) → length (map f xs) ≡ length xs
length-map f [] = refl
length-map f (x ∷ xs) = ap suc (length-map f xs)

abbrev pub contains : List ℕ → ℕ → Bool
contains [] a = false
contains (x ∷ xs) a = (x == a) || contains xs a

pub contains-append :
    (xs ys : List ℕ) (a : ℕ) → contains (xs ++ ys) a ≡ (contains xs a || contains ys a)
contains-append [] ys a = refl
contains-append (x ∷ xs) ys a =
    rw (contains-append xs ys a) (or_assoc (x == a) (contains xs a) (contains ys a))
  where
    or_assoc : (p q r : Bool) → (p || (q || r)) ≡ ((p || q) || r)
    or_assoc true q r = refl
    or_assoc false q r = refl

abbrev pub Distinct : List ℕ → Type 0
Distinct [] = Unit
Distinct (x ∷ xs) = (contains xs x ≡ false) × Distinct xs

abbrev pub All {ℓ κ} : {A : Type ℓ} → (A → Type κ) → List A → Type κ
All P [] = Unit
All P (x ∷ xs) = P x × All P xs
