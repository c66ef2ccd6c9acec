-- ===== src/TrackerCore/Databases/Rows/Laws.antt =====
-- What a query collects from the rows of a table.
use torrust_tracker.Prelude.{
  ℕ, Bool, true, false, Option-cases, inl, inr, ◌≡◌, sym, ap, ◌∙◌, ◌==◌, none, some, List, ◌∷◌,
  arith, Text, text_eq, text_eq_iff,
}
use torrust_tracker.TrackerCore.Databases.{InfoHashText}
use torrust_tracker.TrackerCore.Databases.Rows.{has_text}

module _ (H : InfoHashText) where
  pub to_string_injective : (j k : ℕ) → H.to_string j ≡ H.to_string k → j ≡ k
  to_string_injective j k e =
      let same : some j ≡ some k =
        sym (H.from_str-to_string j) ∙ (ap H.from_str e ∙ H.from_str-to_string k) in
      cc

  pub text_eq-to_string : (j k : ℕ) → text_eq (H.to_string j) (H.to_string k) ≡ (j == k)
  text_eq-to_string j k = ground (
    arith,
    to_string_injective j k,
    text_eq_iff (H.to_string j) (H.to_string k),
    ap H.to_string {x = j} {y = k},
  )

  -- Whether a text is what an info hash is written as.
  abbrev pub is_hash : Text → Bool
  is_hash t = elim (H.from_str t) [ none ↦ false | some k ↦ text_eq t (H.to_string k) ]

  pub is_hash-to_string : (k : ℕ) → is_hash (H.to_string k) ≡ true
  is_hash-to_string k =
      ground (arith, H.from_str-to_string k, text_eq_iff (H.to_string k) (H.to_string k))

  is_hash_lem : (t : Text) → is_hash t ≡ true → (k : ℕ) × (t ≡ H.to_string k)
  is_hash_lem t h = elim (Option-cases (H.from_str t)) [
    | inl none_read ↦ ground arith
    | inr (k, read) ↦ (k, ground (arith, text_eq_iff t (H.to_string k)))
  ]

  -- Every text of a column is that of an info hash.
  abbrev pub IsHashColumn : List Text → Type 0
  IsHashColumn l = (t : Text) → has_text t l ≡ true → is_hash t ≡ true

  pub IsHashColumn-tail : (t : Text) (l : List Text) → IsHashColumn (t ∷ l) → IsHashColumn l
  IsHashColumn-tail t l h u member = h u (ground arith)

  pub IsHashColumn-head :
      (t : Text) (l : List Text) → IsHashColumn (t ∷ l) → (k : ℕ) × (t ≡ H.to_string k)
  IsHashColumn-head t l h = is_hash_lem t (h t (ground (arith, text_eq_iff t t)))
