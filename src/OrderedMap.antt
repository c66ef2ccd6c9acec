-- ===== src/OrderedMap.antt =====
-- Ordered maps: `BTreeMap` and `SkipMap` with 20-byte keys, as association lists in ascending
-- order of the keys. A key is the number that its bytes spell, most significant byte first, so
-- the order of the byte arrays is that of the numbers.
pub mod Order
pub mod Laws
pub mod Extensional
use torrust_tracker.Prelude.{
  ℕ, Bool, Option, none, some, List, [], ◌∷◌, map, ltb, ◌==◌, if◌then◌else◌,
}

abbrev pub Map {ℓ} : Type ℓ → Type ℓ
Map V = List (ℕ × V)

module _ {ℓ} {V : Type ℓ} where
  unfoldable pub lookup : ℕ → Map V → Option V
  lookup k [] = none
  lookup k ((j, v) ∷ m) = if k == j then some v else lookup k m

  unfoldable pub insert : ℕ → V → Map V → Map V
  insert k v [] = (k, v) ∷ []
  insert k v ((j, w) ∷ m) =
      if k == j then (k, v) ∷ m else if ltb k j then (k, v) ∷ (j, w) ∷ m else (j, w) ∷ insert k v m

  unfoldable pub remove : ℕ → Map V → Map V
  remove k [] = []
  remove k ((j, w) ∷ m) = let rest = remove k m in if k == j then rest else (j, w) ∷ rest

  -- `retain(|_, v| p(v))`
  unfoldable pub retain : (V → Bool) → Map V → Map V
  retain p [] = []
  retain p ((j, w) ∷ m) = let rest = retain p m in if p w then (j, w) ∷ rest else rest

  abbrev pub values : Map V → List V
  values = map (λ e. e.1)

  abbrev pub keys : Map V → List ℕ
  keys = map (λ e. e.0)

-- Every value `v` becomes `f v` where it stands.
unfoldable pub map_values {ℓ κ} : {V : Type ℓ} {W : Type κ} → (V → W) → Map V → Map W
map_values f [] = []
map_values f ((j, w) ∷ m) = (j, f w) ∷ map_values f m
