-- ===== src/Base/Results.antt =====
-- What a JavaScript computation ends in: a value, or a thrown error. `do` blocks chain such
-- computations, and `attempt` is `try … catch`.
use mathlib.Core.Path.{◌≡◌, refl}
use mathlib.Core.Logic.{◌⊎◌, inl, inr}
use mathlib.Core.List.{List, [], ◌∷◌}
use Prim.Native.Nat.{ℕ}
use ic_govmind.Base.Lists.{All}
use Prim.Native.String.{String}

-- `error m` is `new Error(m)`; the engine words the messages of the others.
pub data Thrown : Type 0 where
  error : List ℕ → Thrown
  syntax_error : List ℕ → Thrown
  type_error : String → Thrown
  range_error : String → Thrown

pub data Outcome {ℓ} (A : Type ℓ) : Type ℓ where
  returns : A → Outcome A
  throws : Thrown → Outcome A

infixl 5 ◌>>=◌ ◌>>◌
abbrev pub ◌>>=◌ {ℓ κ} : {A : Type ℓ} {B : Type κ} → Outcome A → (A → Outcome B) → Outcome B
returns a >>= f = f a
throws e >>= f = throws e

abbrev pub ◌>>◌ {ℓ} : {B : Type ℓ} → Outcome (Unit {0}) → Outcome B → Outcome B
m >> k = m >>= λ _. k

abbrev pub attempt {ℓ} : {A : Type ℓ} → Outcome A → (Thrown → A) → A
attempt (returns a) handler = a
attempt (throws e) handler = handler e

-- `map` with a function that may throw.
abbrev pub each {ℓ κ} : {A : Type ℓ} {B : Type κ} → (A → Outcome B) → List A → Outcome (List B)
each f [] = returns []
each f (x ∷ xs) = f x >>= λ b. each f xs >>= λ bs. returns (b ∷ bs)

pub >>=-eq-returns {ℓ κ} :
    {A : Type ℓ} {B : Type κ} (m : Outcome A) (f : A → Outcome B) {b : B}
    → (m >>= f) ≡ returns b
    → (a : A) × (m ≡ returns a) × (f a ≡ returns b)
>>=-eq-returns (returns a) f h = (a, refl, h)
>>=-eq-returns (throws e) f h = cc

-- `P` holds of what the computation returns, if it returns.
abbrev pub Ensures {ℓ κ} : {A : Type ℓ} → (A → Type κ) → Outcome A → Type κ
Ensures P (returns a) = P a
Ensures P (throws e) = Unit

module _ {ℓ κ μ} {A : Type ℓ} {B : Type κ} (P : B → Type μ) where
  pub Ensures-bind :
      (m : Outcome A) (f : A → Outcome B)
      → ((a : A) → m ≡ returns a → Ensures P (f a))
      → Ensures P (m >>= f)
  Ensures-bind (returns a) f h = h a refl
  Ensures-bind (throws e) f h = tt

pub Ensures-returns {ℓ κ} :
    {A : Type ℓ} (P : A → Type κ) (m : Outcome A) (a : A) → Ensures P m → m ≡ returns a → P a
Ensures-returns P m a h e = rw e at h

pub Outcome-cases {ℓ} :
    {A : Type ℓ} (m : Outcome A) → ((a : A) × (m ≡ returns a)) ⊎ ((t : Thrown) × (m ≡ throws t))
Outcome-cases (returns a) = inl (a, refl)
Outcome-cases (throws t) = inr (t, refl)

pub Ensures-attempt {ℓ κ} :
    {A : Type ℓ} (P : A → Type κ) (m : Outcome A) (handler : Thrown → A)
    → Ensures P m
    → ((t : Thrown) → P (handler t))
    → P (attempt m handler)
Ensures-attempt P (returns a) handler h k = h
Ensures-attempt P (throws t) handler h k = k t

pub Ensures-each {ℓ κ μ} :
    {A : Type ℓ} {B : Type κ} (P : B → Type μ) (f : A → Outcome B) (xs : List A)
    → ((x : A) → Ensures P (f x))
    → Ensures (All P) (each f xs)
Ensures-each P f [] h = tt
Ensures-each P f (x ∷ xs) h = Ensures-bind (All P) (f x) _ λ b made.
    Ensures-bind (All P) (each f xs) _ λ bs rest. (
      Ensures-returns P (f x) b (h x) made,
      Ensures-returns (All P) (each f xs) bs (Ensures-each P f xs h) rest,
    )

-- The computation does not throw.
abbrev pub Returns {ℓ} : {A : Type ℓ} → Outcome A → Type ℓ
Returns {A = A} m = (a : A) × (m ≡ returns a)

pub Returns-bind {ℓ κ} :
    {A : Type ℓ} {B : Type κ} (m : Outcome A) (f : A → Outcome B)
    → Returns m
    → ((a : A) → Returns (f a))
    → Returns (m >>= f)
Returns-bind (returns a) f h k = k a
Returns-bind (throws t) f (a, h) k = cc
