-- ===== src/Prelude/Frame.antt =====
-- Code that does not read a part of its state: forgetting that part before or after makes no difference.
-- It models no code of the repository.
use mathlib.Core.Path.{◌≡◌, refl, sym, ap, ◌∙◌}
use graphify_daemon_portfoli.Prelude.Exec.{Result, ok, raise, Exec, bind_result, ◌>>=◌}

module _ {ℓ} {S : Type ℓ} (forget : S → S) where
  -- What `m` returns, and what it leaves of the rest of the state, do not depend on what is forgotten.
  pub record IsBlind {A : Type ℓ} (m : Exec S A) : Type ℓ where
    pub result : (s : S) → (m s).0 ≡ (m (forget s)).0
    pub rest : (s : S) → forget (m s).1 ≡ forget (m (forget s)).1

  pub agree :
      {A : Type ℓ} {m : Exec S A} → IsBlind m → (s t : S) → forget s ≡ forget t → (m s).0 ≡ (m t).0
  agree {A} {m} b s t e = b.result s ∙ ap (λ x. (m x).0) e ∙ sym (b.result t)

  pub agree_rest :
      {A : Type ℓ} {m : Exec S A}
      → IsBlind m
      → (s t : S) → forget s ≡ forget t
      → forget (m s).1 ≡ forget (m t).1
  agree_rest {A} {m} b s t e = b.rest s ∙ ap (λ x. forget (m x).1) e ∙ sym (b.rest t)

  module _ {A B : Type ℓ} (m : Exec S A) (f : A → Exec S B) where
    -- The continuation on either side, by the result.
    bound-result :
        IsBlind m
        → ((a : A) → IsBlind (f a))
        → (s : S) (r r' : Result A) → r ≡ r'
        → (u v : S) → forget u ≡ forget v
        → ((bind_result r f u).0 ≡ (bind_result r' f v).0)
          × (forget (bind_result r f u).1 ≡ forget (bind_result r' f v).1)
    bound-result b k s (ok a) r' e u v h = rw (sym e) (agree (k a) u v h, agree_rest (k a) u v h)
    bound-result b k s (raise x) r' e u v h = rw (sym e) (refl, h)

    pub bind-IsBlind : IsBlind m → ((a : A) → IsBlind (f a)) → IsBlind (m >>= f)
    bind-IsBlind b k = record {
      result = λ s.
          (bound-result b k s (m s).0 (m (forget s)).0 (b.result s) (m s).1 (m (forget s)).1
            (b.rest s)).0;
      rest = λ s.
          (bound-result b k s (m s).0 (m (forget s)).0 (b.result s) (m s).1 (m (forget s)).1
            (b.rest s)).1;
    }
