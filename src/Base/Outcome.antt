-- ===== src/Base/Outcome.antt =====
-- The outcome of an operation on a state of type `S` that may fail with an error of type `E`.
-- What was written before the failure stays: the state is returned with the error as well.
use mathlib.Core.Path.{◌≡◌, refl}
use mathlib.Core.Logic.{◌⊎◌, inl, inr}

pub data Outcome {ℓ} (S E : Type 0) (A : Type ℓ) : Type ℓ where
  ok : A → S → Outcome S E A
  err : E → S → Outcome S E A

infixl 5 ◌>>=◌ ◌>>◌
abbrev pub ◌>>=◌ {ℓ κ} :
    {S E : Type 0} {A : Type ℓ} {B : Type κ}
    → (S → Outcome S E A)
    → (A → S → Outcome S E B)
    → S
    → Outcome S E B
◌>>=◌ m f s = elim (m s) [ ok a s' ↦ f a s' | err e s' ↦ err e s' ]

abbrev pub ◌>>◌ {ℓ κ} :
    {S E : Type 0} {A : Type ℓ} {B : Type κ}
    → (S → Outcome S E A)
    → (S → Outcome S E B)
    → S
    → Outcome S E B
m >> k = m >>= λ _. k

-- `Ok(a)` and `Err(e)`.
abbrev pub pure {ℓ} : {S E : Type 0} {A : Type ℓ} → A → S → Outcome S E A
pure a s = ok a s

abbrev pub throw {ℓ} : {S E : Type 0} {A : Type ℓ} → E → S → Outcome S E A
throw e s = err e s

-- The state that an operation leaves, whether it failed or not.
abbrev pub state_of {ℓ} : {S E : Type 0} {A : Type ℓ} → Outcome S E A → S
state_of (ok a s) = s
state_of (err e s) = s

pub Outcome-cases {ℓ} :
    {S E : Type 0} {A : Type ℓ} (r : Outcome S E A)
    → ((a : A) × (s : S) × (r ≡ ok a s)) ⊎ ((e : E) × (s : S) × (r ≡ err e s))
Outcome-cases (ok a s) = inl (a, s, refl)
Outcome-cases (err e s) = inr (e, s, refl)
