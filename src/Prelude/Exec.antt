-- ===== src/Prelude/Exec.antt =====
-- Code that changes state and may raise: a new state beside a result. A raise keeps the changes
-- that were made before it, as in Python.
use mathlib.Core.Path.{◌≡◌, refl}
use mathlib.Core.Logic.{◌⊎◌, inl, inr}
use mathlib.Core.Option.{Option, none, some}

-- The exceptions that the modelled code raises or lets through.
pub data Error : Type 0 where
  value_error key_error type_error attribute_error assertion_error file_not_found
        configuration_error system_exit database_error :
      Error

pub data Result {ℓ} (A : Type ℓ) : Type ℓ where
  ok : A → Result A
  raise : Error → Result A

abbrev pub Exec {ℓ} : Type ℓ → Type ℓ → Type ℓ
Exec S A = S → Result A × S

abbrev pub bind_result {ℓ} : {S A B : Type ℓ} → Result A → (A → Exec S B) → Exec S B
bind_result (ok a) f s = f a s
bind_result (raise e) f s = (raise e, s)

infixl 5 ◌>>=◌
abbrev pub ◌>>=◌ {ℓ} : {S A B : Type ℓ} → Exec S A → (A → Exec S B) → Exec S B
◌>>=◌ m f s = bind_result (m s).0 f (m s).1

abbrev pub pure {ℓ} : {S A : Type ℓ} → A → Exec S A
pure a s = (ok a, s)

abbrev pub throw {ℓ} : {S A : Type ℓ} → Error → Exec S A
throw e s = (raise e, s)

-- A computation that changes nothing.
abbrev pub lift {ℓ} : {S A : Type ℓ} → Result A → Exec S A
lift r s = (r, s)

abbrev pub modify {ℓ} : {S : Type ℓ} → (S → S) → Exec S (Unit {ℓ})
modify f s = (ok tt, f s)

infixl 5 ◌>>◌
abbrev pub ◌>>◌ {ℓ} : {S B : Type ℓ} → Exec S (Unit {ℓ}) → Exec S B → Exec S B
m >> k = m >>= λ _. k

-- `option or raise`
abbrev pub or_raise {ℓ} : {A : Type ℓ} → Error → Option A → Result A
or_raise e none = raise e
or_raise e (some a) = ok a

pub Result-cases {ℓ} :
    {A : Type ℓ} (r : Result A) → ((a : A) × (r ≡ ok a)) ⊎ ((e : Error) × (r ≡ raise e))
Result-cases (ok a) = inl (a, refl)
Result-cases (raise e) = inr (e, refl)
