-- ===== src/Base/Errors.antt =====
-- Python exceptions as values: the classes that the program raises itself.
use mathlib.Core.Path.{◌≡◌, refl}

pub data Error : Type 0 where
  key_error index_error value_error runtime_error io_error cuda_error zero_division_error : Error

pub data Result {ℓ} (A : Type ℓ) : Type ℓ where
  ok : A → Result A
  raise : Error → Result A

infixl 5 ◌>>=◌
abbrev pub ◌>>=◌ {ℓ κ} : {A : Type ℓ} {B : Type κ} → Result A → (A → Result B) → Result B
ok a >>= f = f a
raise e >>= f = raise e

-- The computation returns, and its result satisfies the predicate.
abbrev pub Returns {ℓ} : {A : Type ℓ} → (A → Type 0) → Result A → Type 0
Returns P (ok a) = P a
Returns P (raise e) = ⊥

-- Sequencing of computations that return.
pub Returns-bind {ℓ κ} :
    {A : Type ℓ} {B : Type κ} (P : A → Type 0) (Q : B → Type 0) (m : Result A) (f : A → Result B)
    → Returns P m
    → ((a : A) → P a → Returns Q (f a))
    → Returns Q (m >>= f)
Returns-bind P Q (ok a) f h g = g a h
Returns-bind P Q (raise e) f h g = absurd h

-- A predicate on the result may be weakened.
pub Returns-mono {ℓ} :
    {A : Type ℓ} (P Q : A → Type 0) (m : Result A)
    → ((a : A) → P a → Q a)
    → Returns P m
    → Returns Q m
Returns-mono P Q (ok a) g h = g a h
Returns-mono P Q (raise e) g h = h

-- A sequence that returns: its first part does, and the rest on its result.
pub bind-ok {ℓ κ} :
    {A : Type ℓ} {B : Type κ} (m : Result A) (f : A → Result B) (b : B)
    → (m >>= f) ≡ ok b
    → (a : A) × (m ≡ ok a) × (f a ≡ ok b)
bind-ok (ok a) f b q = (a, refl, q)
bind-ok (raise e) f b q = absurd (cc)

-- The computation returns.
abbrev pub Defined {ℓ} : {A : Type ℓ} → Result A → Type ℓ
Defined {A = A} m = (a : A) × (m ≡ ok a)

pub Defined-bind {ℓ κ} :
    {A : Type ℓ} {B : Type κ} (m : Result A) (f : A → Result B)
    → Defined m
    → ((a : A) → m ≡ ok a → Defined (f a))
    → Defined (m >>= f)
Defined-bind (ok a) f d g = g a refl
Defined-bind (raise e) f d g = absurd (let q = d.1 in cc)
