-- ===== src/Prelude/Window.antt =====
-- The last `n` elements of a list, and what they keep of a dictionary when an entry moves to the
-- end: what a bounded deque and an LRU cache are held to. It models no code of the repository.
use Prim.Native.Nat.{ℕ, suc, ◌+◌, ◌≤◌}
use mathlib.Core.Path.{◌≡◌, refl}
use mathlib.Core.Option.{none, some}
use mathlib.Core.List.{List, [], ◌∷◌, ◌++◌}
use native.Mathlib.Omega.{arith}
use graphify_daemon_portfoli.Prelude.Tests.{ltb, if◌then◌else◌}
use graphify_daemon_portfoli.Prelude.Lists.{length, drop, length-append}
use graphify_daemon_portfoli.Prelude.Dict.{
  Dict, lookup, remove, Unique, remove_absent, length-remove-le,
}

module _ {A : Type 0} where
  -- The last `n` elements of a list.
  unfoldable pub last : ℕ → List A → List A
  last n [] = []
  last n (x ∷ xs) = let rest = last n xs in if ltb (length xs) n then x ∷ xs else rest

  pub length-last-le : (n : ℕ) (xs : List A) → length (last n xs) ≤ n
  unfolding last
  length-last-le n [] = omega arith
  length-last-le n (x ∷ xs) = ground (arith, length-last-le n xs)

  pub last_zero : (xs : List A) → last 0 xs ≡ []
  unfolding last
  last_zero [] = refl
  last_zero (x ∷ xs) = ground (arith, last_zero xs)

  pub last_all : (n : ℕ) (xs : List A) → length xs ≤ n → last n xs ≡ xs
  unfolding last
  last_all n [] h = refl
  last_all n (x ∷ xs) h = ground arith

  pub last-drop : (n : ℕ) (xs : List A) → length xs ≡ n + 1 → last n xs ≡ drop 1 xs
  unfolding last
  last-drop n [] h = refl
  last-drop n (x ∷ xs) h = ground (arith, last_all n xs)

  pub last-append :
      (n : ℕ) (xs : List A) (x : A) → last (suc n) (xs ++ x ∷ []) ≡ last n xs ++ x ∷ []
  unfolding last
  last-append n [] x = ground arith
  last-append n (y ∷ ys) x = ground (arith, last-append n ys x, length-append ys (x ∷ []))

  -- What falls out of a window early is not missed when more elements follow.
  pub last-last-append : (n : ℕ) (xs ys : List A) → last n (last n xs ++ ys) ≡ last n (xs ++ ys)
  unfolding last
  last-last-append n [] ys = refl
  last-last-append n (x ∷ xs) ys = ground (arith, last-last-append n xs ys, length-append xs ys)

module _ {K V : Type 0} (dec : Discrete K) where
  -- To move an entry to the end and keep `n + 1` entries, the last `n + 1` are all that matter.
  pub last-remove-last :
      (n : ℕ) (k : K) (d : Dict K V)
      → Unique dec d
      → last n (remove dec k (last (suc n) d)) ≡ last n (remove dec k d)
  unfolding last remove
  last-remove-last n k [] u = refl
  last-remove-last n k ((j, w) ∷ d) u =
      ground (arith, last-remove-last n k d, length-remove-le dec k d, remove_absent dec k d)

  -- What the last entries show is in the whole dictionary.
  pub lookup-last :
      (n : ℕ) (k : K) (d : Dict K V) (v : V)
      → Unique dec d
      → lookup dec k (last n d) ≡ some v
      → lookup dec k d ≡ some v
  unfolding last lookup
  lookup-last n k [] v u h = h
  lookup-last n k ((j, w) ∷ d) v u h = ground (arith, lookup-last n k d v)

  pub lookup-last-none :
      (n : ℕ) (k : K) (d : Dict K V) → lookup dec k d ≡ none → lookup dec k (last n d) ≡ none
  unfolding last lookup
  lookup-last-none n k [] h = refl
  lookup-last-none n k ((j, w) ∷ d) h = ground (arith, lookup-last-none n k d)

  pub last-Unique : (n : ℕ) (d : Dict K V) → Unique dec d → Unique dec (last n d)
  unfolding last
  last-Unique n [] u = tt
  last-Unique n ((j, w) ∷ d) u = ground (arith, last-Unique n d)
