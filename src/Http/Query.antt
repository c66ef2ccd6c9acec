-- ===== src/Http/Query.antt =====
-- packages/http-protocol/src/v1/query.rs: the parameters of a query string. The multimap is a crate,
-- and an interface here: a map from names to the values that were inserted under them, in order.
pub mod Text
pub mod RoundTrip
use torrust_tracker.Prelude.{
  ℕ, Bool, Option, none, some, List, [], ◌∷◌, ◌++◌, map, ◌≡◌, if◌then◌else◌, Result, ok, err,
  text_eq,
}
use mathlib.Core.Option
use torrust_tracker.Prelude as Shared
use torrust_tracker.Http.Query.Text.{split, trim, trim_start_matches, join}

pub record NameValuePair : Type 0 where
  pub name : Shared.Text
  pub value : Shared.Text

-- The values under a name with one more, as `MultiMap::insert` leaves them.
abbrev pub with_last {ℓ} : {V : Type ℓ} → Option (List V) → V → List V
with_last none v = v ∷ []
with_last (some vs) v = vs ++ v ∷ []

abbrev pub first {ℓ} : {V : Type ℓ} → Option (List V) → Option V
first none = none
first (some []) = none
first (some (v ∷ vs)) = some v

pub record MultiMap : Type 1 where
  pub M : Type 0
  pub empty : M
  pub insert : Shared.Text → NameValuePair → M → M
  pub get : Shared.Text → M → Option NameValuePair
  pub get_vec : Shared.Text → M → Option (List NameValuePair)
  pub get_vec-empty : (k : Shared.Text) → get_vec k empty ≡ none
  pub get_vec-insert :
      (k j : Shared.Text) (v : NameValuePair) (m : M)
      → get_vec j (insert k v m)
        ≡ (if text_eq j k then some (with_last (get_vec j m) v) else get_vec j m)
  pub get_lem : (k : Shared.Text) (m : M) → get k m ≡ first (get_vec k m)

pub data ParseQueryError : Type 0 where
  invalid_param : Shared.Text → ParseQueryError

-- `FromStr for NameValuePair`
abbrev pair_of : Shared.Text → List Shared.Text → Result ParseQueryError NameValuePair
pair_of raw (name ∷ value ∷ []) = ok (record { name = name; value = value })
pair_of raw _ = err (invalid_param raw)

unfoldable pub parse_pair : Shared.Text → Result ParseQueryError NameValuePair
parse_pair raw_param = pair_of raw_param (split b'=' raw_param)

-- `Display for NameValuePair`
unfoldable pub show_pair : NameValuePair → Shared.Text
show_pair p = p.name ++ (b'=' ∷ p.value)

module _ (D : MultiMap) where
  pub record Query : Type 0 where
    pub params : D.M

  unfoldable pub get_param : Query → Shared.Text → Option Shared.Text
  get_param q name = Option.map (λ p. p.value) (D.get name q.params)

  unfoldable pub get_param_vec : Query → Shared.Text → Option (List Shared.Text)
  get_param_vec q name = Option.map (map (λ p. p.value)) (D.get_vec name q.params)

  abbrev insert_pair : D.M → NameValuePair → D.M
  insert_pair m p = D.insert p.name p m

  -- The loop of `from_str`.
  unfoldable pub parse_params : D.M → List Shared.Text → Result ParseQueryError D.M
  unfolding parse_pair
  parse_params m [] = ok m
  parse_params m (raw_param ∷ rest) = elim (parse_pair raw_param) [
    | err e ↦ err e
    | ok pair ↦ parse_params (insert_pair m pair) rest
  ]

  abbrev query_of : Result ParseQueryError D.M → Result ParseQueryError Query
  query_of (ok m) = ok (record { params = m })
  query_of (err e) = err e

  -- `FromStr for Query`
  unfoldable pub from_str : Shared.Text → Result ParseQueryError Query
  unfolding parse_params
  from_str raw_query =
      query_of (parse_params D.empty (split b'&' (trim_start_matches b'?' (trim raw_query))))

  unfoldable pub insert_all : D.M → List NameValuePair → D.M
  insert_all m [] = m
  insert_all m (p ∷ ps) = insert_all (insert_pair m p) ps

  -- `From<Vec<(&str, &str)>> for Query`
  unfoldable pub from_vec : List NameValuePair → Query
  unfolding insert_all
  from_vec raw_params = record { params = insert_all D.empty raw_params }
