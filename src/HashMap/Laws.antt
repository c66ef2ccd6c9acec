-- ===== src/HashMap/Laws.antt =====
-- What a lookup in a hash map finds after each operation.
use torrust_tracker.Prelude.{◌≡◌, none, some, [], ◌∷◌, arith, if◌then◌else◌, Eq}
use torrust_tracker.HashMap.{HashMap, get, remove, insert}

module _ {ℓ κ} {K : Type ℓ} {V : Type κ} ⦃e : Eq K⦄ where
  pub get-remove :
      (k j : K) (m : HashMap K V) → get j (remove k m) ≡ (if e.beq j k then none else get j m)
  unfolding get remove
  get-remove k j [] = ground arith
  get-remove k j ((i, v) ∷ m) =
      ground (arith, get-remove k j m, e.beq_iff k i, e.beq_iff j i, e.beq_iff j k)

  pub get-insert :
      (k j : K) (v : V) (m : HashMap K V)
      → get j (insert k v m) ≡ (if e.beq j k then some v else get j m)
  unfolding get insert
  get-insert k j v m = ground (arith, get-remove k j m)
