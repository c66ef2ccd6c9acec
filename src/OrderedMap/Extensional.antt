-- ===== src/OrderedMap/Extensional.antt =====
-- An ordered map is determined by what its lookups find.
use torrust_tracker.Prelude.{ℕ, ◌≡◌, refl, sym, some, [], ◌∷◌, arith}
use torrust_tracker.OrderedMap.{Map, lookup}
use torrust_tracker.OrderedMap.Order.{AllAbove, IsSorted, lookup_above}

module _ {V : Type 0} where
  lookup-cons_self : (k : ℕ) (v : V) (m : Map V) → lookup k ((k, v) ∷ m) ≡ some v
  unfolding lookup
  lookup-cons_self k v m = ground arith

  lookup-nil_ne : (k : ℕ) (v : V) (m : Map V) → lookup k [] ≡ lookup k ((k, v) ∷ m) → ⊥
  unfolding lookup
  lookup-nil_ne k v m h = ground (arith, lookup-cons_self k v m)

  -- The lookups of two tails above one key agree if those of the whole maps do.
  lookup_tails :
      (i j k : ℕ) (v w : V) (m n : Map V)
      → i ≡ j
      → AllAbove i m
      → AllAbove j n
      → lookup k ((i, v) ∷ m) ≡ lookup k ((j, w) ∷ n)
      → lookup k m ≡ lookup k n
  unfolding lookup
  lookup_tails i j k v w m n e a b h = ground (arith, lookup_above k i m, lookup_above k j n)

  heads_agree :
      (i j : ℕ) (v w : V) (m n : Map V)
      → AllAbove i m
      → AllAbove j n
      → lookup i ((i, v) ∷ m) ≡ lookup i ((j, w) ∷ n)
      → lookup j ((i, v) ∷ m) ≡ lookup j ((j, w) ∷ n)
      → (i ≡ j) × (v ≡ w)
  unfolding lookup
  heads_agree i j v w m n a b h g = ground (arith, lookup_above i j n, lookup_above j i m)

  pub Map-ext :
      (m n : Map V) → IsSorted m → IsSorted n → ((k : ℕ) → lookup k m ≡ lookup k n) → m ≡ n
  Map-ext [] [] s t h = refl
  Map-ext [] ((j, w) ∷ n) s t h = absurd (lookup-nil_ne j w n (h j))
  Map-ext ((i, v) ∷ m) [] s t h = absurd (lookup-nil_ne i v m (sym (h i)))
  Map-ext ((i, v) ∷ m) ((j, w) ∷ n) s t h =
      let (same_key, same_value) = heads_agree i j v w m n s.0 t.0 (h i) (h j) in
      let tails : m ≡ n =
        Map-ext m n s.1 t.1 (λ k. lookup_tails i j k v w m n same_key s.0 t.0 (h k)) in
      ground (arith, same_key, same_value, tails)
