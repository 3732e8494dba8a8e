-- ===== src/Prelude/Dict.antt =====
-- Python's `dict`: an association list in insertion order. A key that is set again keeps its
-- place; `d.pop(k, None)` removes the key.
use Prim.Native.Nat.{◌+◌, ◌≤◌}
use mathlib.Core.Path.{◌≡◌, refl}
use mathlib.Core.Logic.{ite}
use mathlib.Core.List.{List, [], ◌∷◌, ◌++◌}
use mathlib.Core.Option.{Option, none, some}
use native.Mathlib.Omega.{arith}
use graphify_daemon_portfoli.Prelude.Lists.{length}

abbrev pub Dict {ℓ} : Type ℓ → Type ℓ → Type ℓ
Dict K V = List (K × V)

module _ {ℓ} {K V : Type ℓ} (dec : Discrete K) where
  -- d.get(k)
  unfoldable pub lookup : K → Dict K V → Option V
  lookup k [] = none
  lookup k ((j, v) ∷ d) = ite (dec j k) (some v) (lookup k d)

  -- d[k] = v
  unfoldable pub put : K → V → Dict K V → Dict K V
  put k v [] = (k, v) ∷ []
  put k v ((j, w) ∷ d) = ite (dec j k) ((j, v) ∷ d) ((j, w) ∷ put k v d)

  -- d.pop(k, None)
  unfoldable pub remove : K → Dict K V → Dict K V
  remove k [] = []
  remove k ((j, w) ∷ d) = ite (dec j k) (remove k d) ((j, w) ∷ remove k d)

  -- No key stands twice.
  abbrev pub Unique : Dict K V → Type ℓ
  Unique [] = Unit
  Unique ((k, v) ∷ d) = (lookup k d ≡ none) × Unique d

  pub lookup-put :
      (k j : K) (v : V) (d : Dict K V) → lookup j (put k v d) ≡ ite (dec k j) (some v) (lookup j d)
  unfolding lookup put
  lookup-put k j v [] = refl
  lookup-put k j v ((i, w) ∷ d) = ground (arith, lookup-put k j v d)

  pub lookup-remove :
      (k j : K) (d : Dict K V) → lookup j (remove k d) ≡ ite (dec k j) none (lookup j d)
  unfolding lookup remove
  lookup-remove k j [] = ground arith
  lookup-remove k j ((i, w) ∷ d) = ground (arith, lookup-remove k j d)

  pub lookup-append :
      (k : K) (d e : Dict K V) (v : V) → lookup k d ≡ some v → lookup k (d ++ e) ≡ some v
  unfolding lookup
  lookup-append k [] e v h = cc
  lookup-append k ((j, w) ∷ d) e v h = ground (arith, lookup-append k d e v)

  pub lookup-append_none :
      (k : K) (d e : Dict K V) → lookup k d ≡ none → lookup k (d ++ e) ≡ lookup k e
  unfolding lookup
  lookup-append_none k [] e h = refl
  lookup-append_none k ((j, w) ∷ d) e h = ground (arith, lookup-append_none k d e)

  pub remove_absent : (k : K) (d : Dict K V) → lookup k d ≡ none → remove k d ≡ d
  unfolding lookup remove
  remove_absent k [] h = refl
  remove_absent k ((j, w) ∷ d) h = ground (arith, remove_absent k d)

  pub put-Unique : (k : K) (v : V) (d : Dict K V) → Unique d → Unique (put k v d)
  unfolding lookup put
  put-Unique k v [] u = (refl, tt)
  put-Unique k v ((j, w) ∷ d) u = ground (arith, lookup-put k j v d, put-Unique k v d)

  pub remove-Unique : (k : K) (d : Dict K V) → Unique d → Unique (remove k d)
  unfolding lookup remove
  remove-Unique k [] u = tt
  remove-Unique k ((j, w) ∷ d) u = ground (arith, lookup-remove k j d, remove-Unique k d)

  pub append-Unique :
      (k : K) (v : V) (d : Dict K V) → Unique d → lookup k d ≡ none → Unique (d ++ (k, v) ∷ [])
  unfolding lookup
  append-Unique k v [] u h = (refl, tt)
  append-Unique k v ((j, w) ∷ d) u h =
      ground (arith, append-Unique k v d, lookup-append_none j d ((k, v) ∷ []))

  -- Removing a key takes away at most one entry.
  pub length-remove-le : (k : K) (d : Dict K V) → Unique d → length d ≤ length (remove k d) + 1
  unfolding lookup remove
  length-remove-le k [] u = omega arith
  length-remove-le k ((j, w) ∷ d) u = ground (arith, length-remove-le k d, remove_absent k d)

  pub length-remove : (k : K) (d : Dict K V) → length (remove k d) ≤ length d
  unfolding remove
  length-remove k [] = omega arith
  length-remove k ((j, w) ∷ d) = ground (arith, length-remove k d)

  -- A key that is present is taken away for good.
  pub length-remove_present :
      (k : K) (d : Dict K V) (v : V) → lookup k d ≡ some v → length (remove k d) + 1 ≤ length d
  unfolding lookup remove
  length-remove_present k [] v h = cc
  length-remove_present k ((j, w) ∷ d) v h =
      ground (arith, length-remove_present k d v, length-remove k d)

  pub length-put-le : (k : K) (v : V) (d : Dict K V) → length (put k v d) ≤ length d + 1
  unfolding put
  length-put-le k v [] = omega arith
  length-put-le k v ((j, w) ∷ d) = ground (arith, length-put-le k v d)

  -- The order of a `put` does not matter to a `remove` of its key.
  pub remove-put : (k : K) (v : V) (d : Dict K V) → remove k (put k v d) ≡ remove k d
  unfolding remove put
  remove-put k v [] = ground arith
  remove-put k v ((j, w) ∷ d) = ground (arith, remove-put k v d)
