-- ===== src/Prelude/Fallible.antt =====
-- Code that may raise and changes no state: results in sequence.
use mathlib.Core.Path.{◌≡◌, refl}
use mathlib.Core.List.{List, [], ◌∷◌}
use graphify_daemon_portfoli.Prelude.Exec.{Error, Result, ok, raise}
use graphify_daemon_portfoli.Prelude.Lists.{All}

infixl 5 ◌>>=◌
abbrev pub ◌>>=◌ {ℓ} : {A B : Type ℓ} → Result A → (A → Result B) → Result B
ok a >>= f = f a
raise e >>= f = raise e

-- A loop that raises with the first element that does.
abbrev pub collect {ℓ} : {A B : Type ℓ} → (A → Result B) → List A → Result (List B)
collect f [] = ok []
collect f (x ∷ xs) = f x >>= λ y. collect f xs >>= λ ys. ok (y ∷ ys)

-- A computation that returns.
abbrev pub IsOk {ℓ} : {A : Type ℓ} → Result A → Type 0
IsOk (ok a) = Unit
IsOk (raise e) = ⊥

-- A computation that returns, or raises for a cause.
abbrev pub ReturnsOr {ℓ} : {A : Type ℓ} → Type 0 → Result A → Type 0
ReturnsOr C (ok a) = Unit
ReturnsOr C (raise e) = C

module _ {ℓ} (C : Type 0) {A : Type ℓ} where
  pub IsOk-ReturnsOr : (m : Result A) → IsOk m → ReturnsOr C m
  IsOk-ReturnsOr (ok a) h = tt
  IsOk-ReturnsOr (raise e) h = elim h [ ]

  pub raise-ReturnsOr : (m : Result A) → ((e : Error) → m ≡ raise e → C) → ReturnsOr C m
  raise-ReturnsOr (ok a) h = tt
  raise-ReturnsOr (raise e) h = h e refl

module _ {ℓ} (C : Type 0) {A B : Type ℓ} where
  -- In sequence; the second computation may use what the first returned.
  pub bind-ReturnsOr :
      (m : Result A) (f : A → Result B)
      → ReturnsOr C m
      → ((a : A) → m ≡ ok a → ReturnsOr C (f a))
      → ReturnsOr C (m >>= f)
  bind-ReturnsOr (ok a) f h k = k a refl
  bind-ReturnsOr (raise e) f h k = h

module _ {ℓ} (C : Type 0) {A B : Type ℓ} where
  pub collect-ReturnsOr :
      (f : A → Result B) (xs : List A)
      → All (λ x. ReturnsOr C (f x)) xs
      → ReturnsOr C (collect f xs)
  collect-ReturnsOr f [] h = tt
  collect-ReturnsOr f (x ∷ xs) h =
      bind-ReturnsOr C (f x) _ h.0
        (λ y p. bind-ReturnsOr C (collect f xs) _ (collect-ReturnsOr f xs h.1) (λ ys q. tt))
