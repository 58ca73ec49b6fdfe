-- ===== src/Common/Elements.antt =====
-- A predicate on every element of a list, and on the result of a step that may fault.
use Prim.Native.Nat.{ℕ, zero, suc, ◌<◌}
use mathlib.Core.Path.{◌≡◌, refl, subst}
use mathlib.Core.List.{List, [], ◌∷◌}
use mathlib.Core.Option.{Option, none, some}
use native.Mathlib.Omega.{arith}
use osgods.Common.Lists.{length, get_elem?, set, replicate}
use osgods.Common.Words.{◌>>=◌}
use osgods.Common.Tests.{if◌then◌else◌}
use mathlib.Core.Bool.{Bool, true, false}

abbrev pub All {ℓ κ} : {A : Type ℓ} → (A → Type κ) → List A → Type κ
All P [] = Unit
All P (x ∷ xs) = P x × All P xs

-- The step does not fault, and its result satisfies `P`.
abbrev pub Ensures {ℓ} : {A : Type ℓ} → (A → Type 0) → Option A → Type 0
Ensures P none = ⊥
Ensures P (some a) = P a

pub Ensures-bind {ℓ κ} :
    {A : Type ℓ} {B : Type κ} (P : A → Type 0) (Q : B → Type 0) (m : Option A) (f : A → Option B)
    → Ensures P m
    → ((a : A) → P a → Ensures Q (f a))
    → Ensures Q (m >>= f)
Ensures-bind P Q none f h k = absurd h
Ensures-bind P Q (some a) f h k = k a h

pub Ensures-some {ℓ} :
    {A : Type ℓ} (P : A → Type 0) (m : Option A) → Ensures P m → (a : A) × (m ≡ some a) × P a
Ensures-some P none h = absurd h
Ensures-some P (some a) h = (a, refl, h)

module _ {ℓ κ} {A : Type ℓ} (P : A → Type κ) where
  pub All-set : (xs : List A) (i : ℕ) (v : A) → All P xs → P v → All P (set xs i v)
  All-set [] i v h p = h
  All-set (x ∷ xs) zero v h p = (p, h.1)
  All-set (x ∷ xs) (suc i) v h p = (h.0, All-set xs i v h.1 p)

  pub All-get_elem? :
      (xs : List A) (i : ℕ) → All P xs → i < length xs → (x : A) × (get_elem? xs i ≡ some x) × P x
  All-get_elem? [] i h lt = absurd (omega arith)
  All-get_elem? (x ∷ xs) zero h lt = (x, refl, h.0)
  All-get_elem? (x ∷ xs) (suc i) h lt = All-get_elem? xs i h.1 (omega arith)

  pub All-at : (xs : List A) (i : ℕ) (x : A) → All P xs → get_elem? xs i ≡ some x → P x
  All-at [] i x h g = absurd cc
  All-at (y ∷ xs) zero x h g = subst P (cc) h.0
  All-at (y ∷ xs) (suc i) x h g = All-at xs i x h.1 g

  pub All-replicate : (n : ℕ) (v : A) → P v → All P (replicate n v)
  All-replicate zero v p = tt
  All-replicate (suc n) v p = (p, All-replicate n v p)

pub get_elem?-lt {ℓ} :
    {A : Type ℓ} (xs : List A) (i : ℕ) → i < length xs → (x : A) × (get_elem? xs i ≡ some x)
get_elem?-lt [] i h = absurd (omega arith)
get_elem?-lt (x ∷ xs) zero h = (x, refl)
get_elem?-lt (x ∷ xs) (suc i) h = get_elem?-lt xs i (omega arith)

-- A place that holds something is in the list.
pub get_elem?-some {ℓ} :
    {A : Type ℓ} (xs : List A) (i : ℕ) (x : A) → get_elem? xs i ≡ some x → i < length xs
get_elem?-some [] i x h = absurd cc
get_elem?-some (y ∷ xs) zero x h = omega arith
get_elem?-some (y ∷ xs) (suc i) x h = omega (arith, get_elem?-some xs i x h)

-- A test splits the claim.
pub Ensures-if {ℓ} :
    {A : Type ℓ} (P : A → Type 0) (b : Bool) (x y : Option A)
    → (b ≡ true → Ensures P x)
    → (b ≡ false → Ensures P y)
    → Ensures P (if b then x else y)
Ensures-if P true x y h k = h refl
Ensures-if P false x y h k = k refl

-- Inversion of a step that does not fault.
pub >>=-eq-some {ℓ κ} :
    {A : Type ℓ} {B : Type κ} (m : Option A) (f : A → Option B) {b : B}
    → (m >>= f) ≡ some b
    → (a : A) × (m ≡ some a) × (f a ≡ some b)
>>=-eq-some (some a) f h = (a, refl, h)
>>=-eq-some none f h = cc

-- If the step does not fault, its result satisfies `P`.
abbrev pub Allows {ℓ} : {A : Type ℓ} → (A → Type 0) → Option A → Type 0
Allows P none = Unit {0}
Allows P (some a) = P a

pub Allows-bind {ℓ κ} :
    {A : Type ℓ} {B : Type κ} (Q : B → Type 0) (m : Option A) (f : A → Option B)
    → ((a : A) → Allows Q (f a))
    → Allows Q (m >>= f)
Allows-bind Q none f k = tt
Allows-bind Q (some a) f k = k a

pub Allows-bind_with {ℓ κ} :
    {A : Type ℓ} {B : Type κ} (P : A → Type 0) (Q : B → Type 0) (m : Option A) (f : A → Option B)
    → Allows P m
    → ((a : A) → P a → Allows Q (f a))
    → Allows Q (m >>= f)
Allows-bind_with P Q none f h k = tt
Allows-bind_with P Q (some a) f h k = k a h

pub Allows-if {ℓ} :
    {A : Type ℓ} (P : A → Type 0) (b : Bool) (x y : Option A)
    → Allows P x
    → Allows P y
    → Allows P (if b then x else y)
Allows-if P true x y h k = h
Allows-if P false x y h k = k

pub Allows-some {ℓ} :
    {A : Type ℓ} (P : A → Type 0) (m : Option A) (a : A) → Allows P m → m ≡ some a → P a
Allows-some P none a h e = cc
Allows-some P (some b) a h e = subst P (cc) h

pub Allows-mono {ℓ} :
    {A : Type ℓ} (P Q : A → Type 0) (m : Option A) → Allows P m → ((a : A) → P a → Q a) → Allows Q m
Allows-mono P Q none h k = tt
Allows-mono P Q (some a) h k = k a h

-- A step that does not fault, and what holds of its result if it does not.
pub Ensures-Allows {ℓ} :
    {A : Type ℓ} (P Q : A → Type 0) (m : Option A)
    → Ensures P m
    → Allows Q m
    → Ensures (λ a. P a × Q a) m
Ensures-Allows P Q none h k = h
Ensures-Allows P Q (some a) h k = (h, k)

pub All-from {ℓ κ} :
    {A : Type ℓ} (P : A → Type κ) (xs : List A)
    → ((i : ℕ) (x : A) → get_elem? xs i ≡ some x → P x)
    → All P xs
All-from P [] h = tt
All-from P (x ∷ xs) h = (h 0 x refl, All-from P xs (λ i y g. h (suc i) y g))

pub Ensures-mono {ℓ} :
    {A : Type ℓ} (P Q : A → Type 0) (m : Option A)
    → Ensures P m
    → ((a : A) → P a → Q a)
    → Ensures Q m
Ensures-mono P Q none h k = absurd h
Ensures-mono P Q (some a) h k = k a h
