-- ===== src/TrackerCore/Databases/Rows.antt =====
-- The reading of rows that the drivers share: a closure for each row, whose panic ends the query.
pub mod Laws
use torrust_tracker.Prelude.{
  ℕ, Bool, true, false, ◌≡◌, ◌||◌, Option, none, some, List, [], ◌∷◌, Result, ok, err, ℤ, pos,
  negsuc, suc, ◌*◌, Text, text_eq, text_eq_instance,
}
use mathlib.Core.Option
use torrust_tracker.HashMap
use torrust_tracker.HashMap.{HashMap}
use torrust_tracker.TrackerCore.Authentication.Key
use torrust_tracker.TrackerCore.Authentication.Key.{PeerKey, nanos}
use torrust_tracker.TrackerCore.Databases.{Error, InfoHashText}

-- What a query ends with: `none` is a panic.
abbrev pub Answer : Type 0 → Type 0
Answer A = Option (Result Error A)

abbrev pub has_text : Text → List Text → Bool
has_text t [] = false
has_text t (u ∷ l) = text_eq t u || has_text t l

-- A table in which a column is unique: no row has the text of a later one.
abbrev pub IsUnique {ℓ} : {V : Type ℓ} → HashMap Text V → Type ℓ
IsUnique [] = Unit
IsUnique ((t, v) ∷ l) = (HashMap.get t l ≡ none) × IsUnique l

-- `filter_map(Result::ok).collect()` over the results of the closure.
abbrev collected : {E A : Type 0} → Option (Result E A) → Option (List A) → Option (List A)
collected none rest = none
collected (some r) none = none
collected (some (ok a)) (some rest) = some (a ∷ rest)
collected (some (err e)) (some rest) = some rest

unfoldable pub collect_ok : {E R A : Type 0} → (R → Option (Result E A)) → List R → Option (List A)
collect_ok f [] = some []
collect_ok f (row ∷ rows) = let rest = collect_ok f rows in collected (f row) rest

-- `i64::unsigned_abs`
abbrev pub unsigned_abs : ℤ → ℕ
unsigned_abs (pos n) = n
unsigned_abs (negsuc n) = suc n

-- The `PeerKey` of a row; `none` where `parse().unwrap()` panics.
unfoldable pub key_of_row : Text → Option ℤ → Option PeerKey
key_of_row key opt_valid_until = elim (Key.new key) [
  | err e ↦ none
  | ok parsed ↦ some (record {
    key = parsed;
    valid_until = Option.map (λ seconds. unsigned_abs seconds * nanos) opt_valid_until;
  })
]
