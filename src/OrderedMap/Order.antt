-- ===== src/OrderedMap/Order.antt =====
-- The keys of an ordered map ascend strictly, so no key stands twice; every operation keeps it.
use torrust_tracker.Prelude.{ℕ, ◌≤◌, ◌<◌, Bool, ◌≡◌, refl, none, [], ◌∷◌, arith}
use torrust_tracker.OrderedMap.{Map, lookup, insert, remove, retain, map_values}

-- Every key of the map is above `k`.
abbrev pub AllAbove {ℓ} : {V : Type ℓ} → ℕ → Map V → Type 0
AllAbove k [] = Unit
AllAbove k ((j, w) ∷ m) = (k < j) × AllAbove k m

abbrev pub IsSorted {ℓ} : {V : Type ℓ} → Map V → Type 0
IsSorted [] = Unit
IsSorted ((j, w) ∷ m) = AllAbove j m × IsSorted m

module _ {ℓ} {V : Type ℓ} where
  pub AllAbove-weaken : (k j : ℕ) (m : Map V) → k ≤ j → AllAbove j m → AllAbove k m
  AllAbove-weaken k j [] h a = tt
  AllAbove-weaken k j ((i, w) ∷ m) h a = (omega arith, AllAbove-weaken k j m h a.1)

  pub lookup_above : (k j : ℕ) (m : Map V) → k ≤ j → AllAbove j m → lookup k m ≡ none
  unfolding lookup
  lookup_above k j [] h a = refl
  lookup_above k j ((i, w) ∷ m) h a = ground (arith, lookup_above k j m h a.1)

  AllAbove-insert : (k j : ℕ) (v : V) (m : Map V) → j < k → AllAbove j m → AllAbove j (insert k v m)
  unfolding insert
  AllAbove-insert k j v [] h a = (h, tt)
  AllAbove-insert k j v ((i, w) ∷ m) h a = ground (arith, AllAbove-insert k j v m h a.1)

  pub insert-IsSorted : (k : ℕ) (v : V) (m : Map V) → IsSorted m → IsSorted (insert k v m)
  unfolding insert
  insert-IsSorted k v [] s = (tt, tt)
  insert-IsSorted k v ((j, w) ∷ m) s =
      ground (arith, insert-IsSorted k v m s.1, AllAbove-insert k j v m, AllAbove-weaken k j m)

  AllAbove-remove : (k j : ℕ) (m : Map V) → AllAbove j m → AllAbove j (remove k m)
  unfolding remove
  AllAbove-remove k j [] a = tt
  AllAbove-remove k j ((i, w) ∷ m) a = ground (arith, AllAbove-remove k j m a.1)

  pub remove-IsSorted : (k : ℕ) (m : Map V) → IsSorted m → IsSorted (remove k m)
  unfolding remove
  remove-IsSorted k [] s = tt
  remove-IsSorted k ((j, w) ∷ m) s =
      ground (arith, remove-IsSorted k m s.1, AllAbove-remove k j m s.0)

  AllAbove-retain : (p : V → Bool) (j : ℕ) (m : Map V) → AllAbove j m → AllAbove j (retain p m)
  unfolding retain
  AllAbove-retain p j [] a = tt
  AllAbove-retain p j ((i, w) ∷ m) a = ground (arith, AllAbove-retain p j m a.1)

  pub retain-IsSorted : (p : V → Bool) (m : Map V) → IsSorted m → IsSorted (retain p m)
  unfolding retain
  retain-IsSorted p [] s = tt
  retain-IsSorted p ((j, w) ∷ m) s =
      ground (arith, retain-IsSorted p m s.1, AllAbove-retain p j m s.0)

module _ {ℓ κ} {V : Type ℓ} {W : Type κ} where
  AllAbove-map_values : (f : V → W) (j : ℕ) (m : Map V) → AllAbove j m → AllAbove j (map_values f m)
  unfolding map_values
  AllAbove-map_values f j [] a = tt
  AllAbove-map_values f j ((i, w) ∷ m) a = (a.0, AllAbove-map_values f j m a.1)

  pub map_values-IsSorted : (f : V → W) (m : Map V) → IsSorted m → IsSorted (map_values f m)
  unfolding map_values
  map_values-IsSorted f [] s = tt
  map_values-IsSorted f ((j, w) ∷ m) s =
      (AllAbove-map_values f j m s.0, map_values-IsSorted f m s.1)
