-- ===== src/Prelude/Lists.antt =====
-- Lists measured by native numbers, under the library's names, and predicates by recursion.
use Prim.Native.Nat.{ℕ, zero, suc, ◌+◌, ◌≤◌, min}
use mathlib.Core.Path.{◌≡◌, refl, ap}
use mathlib.Core.Bool.{Bool, true, not}
use mathlib.Core.List.{List, [], ◌∷◌, ◌++◌}
use native.Mathlib.Omega.{arith}
use torrust_tracker.Prelude.Tests.{if◌then◌else◌, to_nat}

module _ {ℓ} {A : Type ℓ} where
  abbrev pub length : List A → ℕ
  length [] = 0
  length (a ∷ l) = suc (length l)

  abbrev pub take : ℕ → List A → List A
  take zero l = []
  take (suc n) [] = []
  take (suc n) (a ∷ l) = a ∷ take n l

  abbrev pub drop : ℕ → List A → List A
  drop zero l = l
  drop (suc n) [] = []
  drop (suc n) (a ∷ l) = drop n l

  -- `Iterator::filter` with a Boolean closure.
  abbrev pub filter_b : (A → Bool) → List A → List A
  filter_b p [] = []
  filter_b p (a ∷ l) = if p a then a ∷ filter_b p l else filter_b p l

  -- `.filter(p).count()`
  abbrev pub count_b : (A → Bool) → List A → ℕ
  count_b p [] = 0
  count_b p (a ∷ l) = to_nat (p a) + count_b p l

  abbrev pub All {κ} : (A → Type κ) → List A → Type κ
  All P [] = Unit
  All P (a ∷ l) = P a × All P l

module _ {ℓ} {A : Type ℓ} where
  pub length-append : (l m : List A) → length (l ++ m) ≡ length l + length m
  length-append [] m = omega arith
  length-append (a ∷ l) m = omega (arith, length-append l m)

  pub length-take : (n : ℕ) (l : List A) → length (take n l) ≡ min n (length l)
  length-take zero l = omega arith
  length-take (suc n) [] = omega arith
  length-take (suc n) (a ∷ l) = omega (arith, length-take n l)

  pub take_of_length-le : (n : ℕ) (l : List A) → length l ≤ n → take n l ≡ l
  take_of_length-le zero [] h = refl
  take_of_length-le zero (a ∷ l) h = absurd (omega arith)
  take_of_length-le (suc n) [] h = refl
  take_of_length-le (suc n) (a ∷ l) h = ap (◌∷◌ a) (take_of_length-le n l (omega arith))

  pub count_b-le-length : (p : A → Bool) (l : List A) → count_b p l ≤ length l
  count_b-le-length p [] = omega arith
  count_b-le-length p (a ∷ l) = ground (arith, count_b-le-length p l)

  pub count_b-not :
      (p : A → Bool) (l : List A) → count_b p l + count_b (λ a. not (p a)) l ≡ length l
  count_b-not p [] = omega arith
  count_b-not p (a ∷ l) = ground (arith, count_b-not p l)

  pub length-filter_b-le : (p : A → Bool) (l : List A) → length (filter_b p l) ≤ length l
  length-filter_b-le p [] = omega arith
  length-filter_b-le p (a ∷ l) = ground (arith, length-filter_b-le p l)

  pub All-take {κ} : (P : A → Type κ) (n : ℕ) (l : List A) → All P l → All P (take n l)
  All-take P zero l h = tt
  All-take P (suc n) [] h = tt
  All-take P (suc n) (a ∷ l) h = (h.0, All-take P n l h.1)

  pub All-filter_b : (p : A → Bool) (l : List A) → All (λ a. p a ≡ true) (filter_b p l)
  All-filter_b p [] = tt
  All-filter_b p (a ∷ l) = ground (arith, All-filter_b p l)

  pub All-drop {κ} : (P : A → Type κ) (n : ℕ) (l : List A) → All P l → All P (drop n l)
  All-drop P zero l h = h
  All-drop P (suc n) [] h = tt
  All-drop P (suc n) (a ∷ l) h = All-drop P n l h.1
