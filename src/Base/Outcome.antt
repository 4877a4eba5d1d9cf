-- ===== src/Base/Outcome.antt =====
-- `Result<T, E>` of the standard library, with `?` as `>>=`.
use mathlib.Core.Path.{◌≡◌, refl}
use mathlib.Core.Logic.{◌⊎◌, inl, inr}
use mathlib.Core.Option.{Option, none, some}
use mathlib.Core.Bool.{Bool, true, false}

pub data Outcome {ℓ} (E A : Type ℓ) : Type ℓ where
  err : E → Outcome E A
  ok : A → Outcome E A

module _ {ℓ} {E A : Type ℓ} where
  abbrev pub is_ok : Outcome E A → Bool
  is_ok (err failure) = false
  is_ok (ok value) = true

  -- `ok_or`
  abbrev pub ok_or : Option A → E → Outcome E A
  ok_or (some value) failure = ok value
  ok_or none failure = err failure

  -- `map_err`
  abbrev pub map_err : {F : Type ℓ} → (E → F) → Outcome E A → Outcome F A
  map_err change (err failure) = err (change failure)
  map_err change (ok value) = ok value

module _ {ℓ} {E A B : Type ℓ} where
  infixl 5 ◌>>=◌
  abbrev pub ◌>>=◌ : Outcome E A → (A → Outcome E B) → Outcome E B
  err failure >>= next = err failure
  ok value >>= next = next value

  -- A chain succeeds only through its first step.
  pub first_ok :
      (m : Outcome E A) (next : A → Outcome E B) {result : B}
      → (m >>= next) ≡ ok result
      → (value : A) × (m ≡ ok value) × (next value ≡ ok result)
  first_ok (err failure) next h = cc
  first_ok (ok value) next h = (value, refl, h)

pub Outcome-cases {ℓ} :
    {E A : Type ℓ} (o : Outcome E A) → ((e : E) × (o ≡ err e)) ⊎ ((a : A) × (o ≡ ok a))
Outcome-cases (err e) = inl (e, refl)
Outcome-cases (ok a) = inr (a, refl)

infixl 5 ◌>>◌
abbrev pub ◌>>◌ {ℓ} : {E B : Type ℓ} → Outcome E Unit → Outcome E B → Outcome E B
check >> rest = check >>= λ passed. rest
