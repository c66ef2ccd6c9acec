-- ===== src/HashMap.antt =====
-- Hash maps of the standard library, over keys with a decidable equality: an association list in
-- which no key stands twice. The program never reads the order of the entries.
pub mod Laws
use torrust_tracker.Prelude.{ℕ, Bool, Option, none, some, List, [], ◌∷◌, if◌then◌else◌, Eq}

abbrev pub HashMap {ℓ κ} : Type ℓ → Type κ → Type (ℓ ⊔ κ)
HashMap K V = List (K × V)

module _ {ℓ κ} {K : Type ℓ} {V : Type κ} ⦃e : Eq K⦄ where
  unfoldable pub get : K → HashMap K V → Option V
  get k [] = none
  get k ((j, v) ∷ m) = if e.beq k j then some v else get k m

  unfoldable pub remove : K → HashMap K V → HashMap K V
  remove k [] = []
  remove k ((j, v) ∷ m) = let rest = remove k m in if e.beq k j then rest else (j, v) ∷ rest

  unfoldable pub insert : K → V → HashMap K V → HashMap K V
  unfolding remove
  insert k v m = (k, v) ∷ remove k m
