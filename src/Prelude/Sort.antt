-- ===== src/Prelude/Sort.antt =====
-- Python's `sorted` on numbers, as an insertion sort, and what an element of a sorted list says of
-- the others. It models no code of the repository.
use Prim.Native.Nat.{ℕ, zero, suc, ◌+◌, ◌≤◌, ◌<◌}
use mathlib.Core.Path.{◌≡◌, refl}
use mathlib.Core.List.{List, [], ◌∷◌}
use native.Mathlib.Omega.{arith}
use graphify_daemon_portfoli.Prelude.Tests.{leb, if◌then◌else◌}
use graphify_daemon_portfoli.Prelude.Lists.{length, get_or, All}

unfoldable pub insert : ℕ → List ℕ → List ℕ
insert x [] = x ∷ []
insert x (y ∷ ys) = if leb x y then x ∷ y ∷ ys else y ∷ insert x ys

unfoldable pub sorted : List ℕ → List ℕ
unfolding insert
sorted [] = []
sorted (x ∷ xs) = insert x (sorted xs)

abbrev pub IsSorted : List ℕ → Type 0
IsSorted [] = Unit
IsSorted (x ∷ xs) = All (λ y. x ≤ y) xs × IsSorted xs

-- How many elements are at most `v`, and how many are at least `v`.
unfoldable pub count_le : ℕ → List ℕ → ℕ
count_le v [] = 0
count_le v (x ∷ xs) = if leb x v then suc (count_le v xs) else count_le v xs

unfoldable pub count_ge : ℕ → List ℕ → ℕ
count_ge v [] = 0
count_ge v (x ∷ xs) = if leb v x then suc (count_ge v xs) else count_ge v xs

All-le : (a b : ℕ) (xs : List ℕ) → a ≤ b → All (λ y. b ≤ y) xs → All (λ y. a ≤ y) xs
All-le a b [] h k = tt
All-le a b (x ∷ xs) h k = (omega arith, All-le a b xs h k.1)

All-insert : (a x : ℕ) (xs : List ℕ) → a ≤ x → All (λ y. a ≤ y) xs → All (λ y. a ≤ y) (insert x xs)
unfolding insert
All-insert a x [] h k = (h, tt)
All-insert a x (y ∷ ys) h k = ground (arith, All-insert a x ys)

insert-IsSorted : (x : ℕ) (xs : List ℕ) → IsSorted xs → IsSorted (insert x xs)
unfolding insert
insert-IsSorted x [] s = (tt, tt)
insert-IsSorted x (y ∷ ys) s =
    ground (arith, All-insert y x ys, insert-IsSorted x ys, All-le x y ys)

pub sorted-IsSorted : (xs : List ℕ) → IsSorted (sorted xs)
unfolding sorted
sorted-IsSorted [] = tt
sorted-IsSorted (x ∷ xs) = insert-IsSorted x (sorted xs) (sorted-IsSorted xs)

length-insert : (x : ℕ) (xs : List ℕ) → length (insert x xs) ≡ suc (length xs)
unfolding insert
length-insert x [] = refl
length-insert x (y ∷ ys) = ground (arith, length-insert x ys)

pub length-sorted : (xs : List ℕ) → length (sorted xs) ≡ length xs
unfolding sorted
length-sorted [] = refl
length-sorted (x ∷ xs) = ground (arith, length-sorted xs, length-insert x (sorted xs))

count_le-insert : (v x : ℕ) (xs : List ℕ) → count_le v (insert x xs) ≡ count_le v (x ∷ xs)
unfolding insert count_le
count_le-insert v x [] = refl
count_le-insert v x (y ∷ ys) = ground (arith, count_le-insert v x ys)

count_ge-insert : (v x : ℕ) (xs : List ℕ) → count_ge v (insert x xs) ≡ count_ge v (x ∷ xs)
unfolding insert count_ge
count_ge-insert v x [] = refl
count_ge-insert v x (y ∷ ys) = ground (arith, count_ge-insert v x ys)

pub count_le-sorted : (v : ℕ) (xs : List ℕ) → count_le v (sorted xs) ≡ count_le v xs
unfolding sorted count_le
count_le-sorted v [] = refl
count_le-sorted v (x ∷ xs) = ground (arith, count_le-sorted v xs, count_le-insert v x (sorted xs))

pub count_ge-sorted : (v : ℕ) (xs : List ℕ) → count_ge v (sorted xs) ≡ count_ge v xs
unfolding sorted count_ge
count_ge-sorted v [] = refl
count_ge-sorted v (x ∷ xs) = ground (arith, count_ge-sorted v xs, count_ge-insert v x (sorted xs))

All-get_or : (a i d : ℕ) (xs : List ℕ) → All (λ y. a ≤ y) xs → i < length xs → a ≤ get_or xs i d
All-get_or a i d [] k h = absurd (omega arith)
All-get_or a zero d (x ∷ xs) k h = k.0
All-get_or a (suc i) d (x ∷ xs) k h = All-get_or a i d xs k.1 (omega arith)

-- A later element of a sorted list is at least as large.
pub get_or_mono :
    (i j d : ℕ) (xs : List ℕ) → IsSorted xs → i ≤ j → j < length xs → get_or xs i d ≤ get_or xs j d
get_or_mono i j d [] s h k = absurd (omega arith)
get_or_mono zero zero d (x ∷ xs) s h k = omega arith
get_or_mono zero (suc j) d (x ∷ xs) s h k = All-get_or x j d xs s.0 (omega arith)
get_or_mono (suc i) zero d (x ∷ xs) s h k = absurd (omega arith)
get_or_mono (suc i) (suc j) d (x ∷ xs) s h k = get_or_mono i j d xs s.1 (omega arith) (omega arith)

-- The element at place `i` has `i + 1` elements at most as large.
pub count_le-get_or :
    (i d : ℕ) (xs : List ℕ) → IsSorted xs → i < length xs → i + 1 ≤ count_le (get_or xs i d) xs
unfolding count_le
count_le-get_or i d [] s h = absurd (omega arith)
count_le-get_or zero d (x ∷ xs) s h = ground arith
count_le-get_or (suc i) d (x ∷ xs) s h =
    ground (arith, count_le-get_or i d xs s.1, All-get_or x i d xs s.0)

count_ge-All : (a : ℕ) (xs : List ℕ) → All (λ y. a ≤ y) xs → count_ge a xs ≡ length xs
unfolding count_ge
count_ge-All a [] k = refl
count_ge-All a (x ∷ xs) k = ground (arith, count_ge-All a xs)

-- All but the first `i` elements are at least as large as the one at place `i`.
pub count_ge-get_or :
    (i d : ℕ) (xs : List ℕ)
    → IsSorted xs
    → i < length xs
    → length xs ≤ i + count_ge (get_or xs i d) xs
unfolding count_ge
count_ge-get_or i d [] s h = absurd (omega arith)
count_ge-get_or zero d (x ∷ xs) s h = ground (arith, count_ge-All x xs)
count_ge-get_or (suc i) d (x ∷ xs) s h = ground (arith, count_ge-get_or i d xs s.1)
