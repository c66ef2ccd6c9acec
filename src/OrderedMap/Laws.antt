-- ===== src/OrderedMap/Laws.antt =====
-- What a lookup finds after each operation, and how counts of values change.
use torrust_tracker.Prelude.{
  ℕ, ◌+◌, ◌≤◌, Bool, ◌≡◌, refl, Option, none, some, [], ◌∷◌, arith, count_b, to_nat, All,
  Bool-cases, inl, inr, ◌==◌, if◌then◌else◌,
}
use mathlib.Core.Path.{subst}
use mathlib.Core.Option
use torrust_tracker.OrderedMap.{Map, lookup, insert, remove, retain, map_values, values}
use torrust_tracker.OrderedMap.Order.{AllAbove, IsSorted, lookup_above}

-- What is left of a found value under a test.
abbrev pub keep_if {ℓ} : {V : Type ℓ} → (V → Bool) → Option V → Option V
keep_if p none = none
keep_if p (some v) = if p v then some v else none

-- 1 if the value is there and passes the test.
abbrev pub weight {ℓ} : {V : Type ℓ} → (V → Bool) → Option V → ℕ
weight p none = 0
weight p (some v) = to_nat (p v)

module _ {ℓ} {V : Type ℓ} where
  pub lookup-insert :
      (k j : ℕ) (v : V) (m : Map V)
      → lookup j (insert k v m) ≡ (if j == k then some v else lookup j m)
  unfolding lookup insert
  lookup-insert k j v [] = refl
  lookup-insert k j v ((i, w) ∷ m) = ground (arith, lookup-insert k j v m)

  pub lookup-remove :
      (k j : ℕ) (m : Map V) → lookup j (remove k m) ≡ (if j == k then none else lookup j m)
  unfolding lookup remove
  lookup-remove k j [] = ground arith
  lookup-remove k j ((i, w) ∷ m) = ground (arith, lookup-remove k j m)

  pub lookup-retain :
      (p : V → Bool) (j : ℕ) (m : Map V)
      → IsSorted m
      → lookup j (retain p m) ≡ keep_if p (lookup j m)
  unfolding lookup retain
  lookup-retain p j [] s = refl
  lookup-retain p j ((i, w) ∷ m) s = ground (arith, lookup-retain p j m s.1, lookup_above j i m)

  remove_above : (k j : ℕ) (m : Map V) → k ≤ j → AllAbove j m → remove k m ≡ m
  unfolding remove
  remove_above k j [] h a = refl
  remove_above k j ((i, w) ∷ m) h a = ground (arith, remove_above k j m h a.1)

  -- The count after an insertion, with the value that it replaced.
  pub count_b-insert :
      (p : V → Bool) (k : ℕ) (v : V) (m : Map V)
      → IsSorted m
      → count_b p (values (insert k v m)) + weight p (lookup k m)
        ≡ count_b p (values m) + to_nat (p v)
  unfolding lookup insert
  count_b-insert p k v [] s = omega arith
  count_b-insert p k v ((j, w) ∷ m) s =
      ground (arith, count_b-insert p k v m s.1, lookup_above k j m)

  -- The count after a removal.
  pub count_b-remove :
      (p : V → Bool) (k : ℕ) (m : Map V)
      → IsSorted m
      → count_b p (values (remove k m)) + weight p (lookup k m) ≡ count_b p (values m)
  unfolding lookup remove
  count_b-remove p k [] s = omega arith
  count_b-remove p k ((j, w) ∷ m) s =
      ground (arith, count_b-remove p k m s.1, lookup_above k j m, remove_above k j m)

  -- Every value of a map that a predicate holds of, key by key.
  pub All-insert {κ} :
      (P : ℕ × V → Type κ) (k : ℕ) (v : V) (m : Map V) → P (k, v) → All P m → All P (insert k v m)
  unfolding insert
  All-insert P k v [] h a = (h, tt)
  All-insert P k v ((j, w) ∷ m) h a = ground (arith, All-insert P k v m h a.1)

  pub All-remove {κ} : (P : ℕ × V → Type κ) (k : ℕ) (m : Map V) → All P m → All P (remove k m)
  unfolding remove
  All-remove P k [] a = tt
  All-remove P k ((j, w) ∷ m) a = ground (arith, All-remove P k m a.1)

  pub All-retain {κ} :
      (P : ℕ × V → Type κ) (p : V → Bool) (m : Map V) → All P m → All P (retain p m)
  unfolding retain
  All-retain P p [] a = tt
  All-retain P p ((j, w) ∷ m) a = ground (arith, All-retain P p m a.1)

  -- A found value comes from an entry.
  pub All-lookup {κ} :
      (P : ℕ × V → Type κ) (k : ℕ) (v : V) (m : Map V) → All P m → lookup k m ≡ some v → P (k, v)
  unfolding lookup
  All-lookup P k v [] a h = absurd (ground arith)
  All-lookup P k v ((j, w) ∷ m) a h = elim (Bool-cases (k == j)) [
    | inl same ↦ let e : (j, w) ≡ (k, v) = ground arith in subst P e a.0
    | inr other ↦ All-lookup P k v m a.1 (ground arith)
  ]

pub lookup-map_values {ℓ κ} :
    {V : Type ℓ} {W : Type κ} (f : V → W) (j : ℕ) (m : Map V)
    → lookup j (map_values f m) ≡ Option.map f (lookup j m)
unfolding lookup map_values
lookup-map_values f j [] = refl
lookup-map_values f j ((i, w) ∷ m) = ground (arith, lookup-map_values f j m)

-- Values change one by one, and what holds of each entry after its change holds of all.
pub All-map_values {ℓ κ μ ν} :
    {V : Type ℓ} {W : Type κ} (P : ℕ × V → Type μ) (Q : ℕ × W → Type ν) (f : V → W) (m : Map V)
    → ((k : ℕ) (v : V) → P (k, v) → Q (k, f v))
    → All P m
    → All Q (map_values f m)
unfolding map_values
All-map_values P Q f [] h a = tt
All-map_values P Q f ((j, w) ∷ m) h a = (h j w a.0, All-map_values P Q f m h a.1)

module _ {ℓ} {V : Type ℓ} where
  -- The entry `e` is what a lookup of its key finds.
  abbrev pub IsFound : Map V → ℕ × V → Type ℓ
  IsFound m e = lookup e.0 m ≡ some e.1

  IsFound-cons :
      (j : ℕ) (w : V) (m n : Map V)
      → AllAbove j n
      → All (IsFound m) n
      → All (IsFound ((j, w) ∷ m)) n
  unfolding lookup
  IsFound-cons j w m [] a h = tt
  IsFound-cons j w m ((k, v) ∷ n) a h = (ground arith, IsFound-cons j w m n a.1 h.1)

  -- A lookup finds every entry.
  pub All-IsFound : (m : Map V) → IsSorted m → All (IsFound m) m
  unfolding lookup
  All-IsFound [] s = tt
  All-IsFound ((j, w) ∷ m) s = (ground arith, IsFound-cons j w m m s.0 (All-IsFound m s.1))
