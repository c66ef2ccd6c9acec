-- ===== src/Http/Query/RoundTrip.antt =====
-- A query that is written out and parsed again has the same parameters, and what its lookups find.
use mathlib.Core.List.{append-nil, append_assoc}
use torrust_tracker.Prelude.{
  ℕ, Bool, true, false, not, ◌&&◌, ◌≡◌, refl, ap, ◌∙◌, Option, none, some, List, [], ◌∷◌, ◌++◌, map,
  arith, if◌then◌else◌, ◌==◌, Result, ok, err, text_eq, all_b, All, filter_b,
}
use mathlib.Core.Option
use torrust_tracker.Prelude as Shared
use torrust_tracker.Http.Query.Text.{
  split, trim_start_matches, join, lacks, is_whitespace, split_none, split-append, trim_clean,
}
use torrust_tracker.Http.Query.{
  NameValuePair, MultiMap, with_last, first, parse_pair, show_pair, get_param, get_param_vec,
  parse_params, from_str, insert_all, from_vec,
}

-- A character that neither ends nor splits a parameter.
abbrev pub is_plain : ℕ → Bool
is_plain c = not (is_whitespace c) && (not (c == b'&') && not (c == b'='))

-- A parameter that can be written out as it is: its name and value have neither white space nor
-- `&` nor `=`, and its name has no question mark.
pub record IsPlain (p : NameValuePair) : Type 0 where
  pub name : all_b is_plain p.name ≡ true
  pub value : all_b is_plain p.value ≡ true
  pub no_mark : lacks b'?' p.name ≡ true

-- The query string of some parameters.
abbrev pub show_query : List NameValuePair → Shared.Text
show_query ps = join b'&' (map show_pair ps)

all_b-append {ℓ} :
    {A : Type ℓ} (p : A → Bool) (xs ys : List A) → all_b p (xs ++ ys) ≡ (all_b p xs && all_b p ys)
all_b-append p [] ys = refl
all_b-append p (x ∷ xs) ys = ground (arith, all_b-append p xs ys)

plain-lacks_equals : (s : Shared.Text) → all_b is_plain s ≡ true → lacks b'=' s ≡ true
plain-lacks_equals [] h = refl
plain-lacks_equals (c ∷ s) h = ground (arith, plain-lacks_equals s)

plain-lacks_and : (s : Shared.Text) → all_b is_plain s ≡ true → lacks b'&' s ≡ true
plain-lacks_and [] h = refl
plain-lacks_and (c ∷ s) h = ground (arith, plain-lacks_and s)

plain_not_blank :
    (s : Shared.Text) → all_b is_plain s ≡ true → all_b (λ c. not (is_whitespace c)) s ≡ true
plain_not_blank [] h = refl
plain_not_blank (c ∷ s) h = ground (arith, plain_not_blank s)

parse_pair-show_pair : (p : NameValuePair) → IsPlain p → parse_pair (show_pair p) ≡ ok p
unfolding parse_pair show_pair
parse_pair-show_pair p h = ground (
  arith,
  split-append b'=' p.name p.value (plain-lacks_equals p.name h.name),
  split_none b'=' p.value (plain-lacks_equals p.value h.value),
)

show_pair-lacks_and : (p : NameValuePair) → IsPlain p → lacks b'&' (show_pair p) ≡ true
unfolding show_pair
show_pair-lacks_and p h =
    rw (all_b-append)
      (ground (arith, plain-lacks_and p.name h.name, plain-lacks_and p.value h.value))

split-show_query :
    (p : NameValuePair) (ps : List NameValuePair)
    → All IsPlain (p ∷ ps)
    → split b'&' (show_query (p ∷ ps)) ≡ map show_pair (p ∷ ps)
unfolding join
split-show_query p [] h = split_none b'&' (show_pair p) (show_pair-lacks_and p h.0)
split-show_query p (q ∷ ps) h =
    split-append b'&' (show_pair p) (show_query (q ∷ ps)) (show_pair-lacks_and p h.0)
    ∙ ap (◌∷◌ (show_pair p)) (split-show_query q ps h.1)

show_pair-not_blank :
    (p : NameValuePair) → IsPlain p → all_b (λ c. not (is_whitespace c)) (show_pair p) ≡ true
unfolding show_pair
show_pair-not_blank p h =
    rw all_b-append (ground (arith, plain_not_blank p.name h.name, plain_not_blank p.value h.value))

show_query-not_blank :
    (ps : List NameValuePair)
    → All IsPlain ps
    → all_b (λ c. not (is_whitespace c)) (show_query ps) ≡ true
unfolding join
show_query-not_blank [] h = refl
show_query-not_blank (p ∷ []) h = show_pair-not_blank p h.0
show_query-not_blank (p ∷ q ∷ ps) h =
    rw all_b-append (ground (arith, show_pair-not_blank p h.0, show_query-not_blank (q ∷ ps) h.1))

no_mark_in_front :
    (name rest : Shared.Text)
    → lacks b'?' name ≡ true
    → trim_start_matches b'?' (name ++ (b'=' ∷ rest)) ≡ name ++ (b'=' ∷ rest)
unfolding trim_start_matches
no_mark_in_front [] rest h = refl
no_mark_in_front (c ∷ name) rest h = ground arith

show_query_no_mark :
    (p : NameValuePair) (ps : List NameValuePair)
    → IsPlain p
    → trim_start_matches b'?' (show_query (p ∷ ps)) ≡ show_query (p ∷ ps)
unfolding join show_pair
show_query_no_mark p [] h = no_mark_in_front p.name p.value h.no_mark
show_query_no_mark p (q ∷ ps) h =
    rw append_assoc (no_mark_in_front p.name (p.value ++ (b'&' ∷ show_query (q ∷ ps))) h.no_mark)

-- The parameters with a name, in order.
abbrev pub named : Shared.Text → List NameValuePair → List NameValuePair
named k = filter_b (λ p. text_eq k p.name)

abbrev pub unless_empty {ℓ} : {V : Type ℓ} → List V → Option (List V)
unless_empty [] = none
unless_empty (v ∷ vs) = some (v ∷ vs)

module _ (D : MultiMap) where
  parse_params-show :
      (m : D.M) (ps : List NameValuePair)
      → All IsPlain ps
      → parse_params D m (map show_pair ps) ≡ ok (insert_all D m ps)
  unfolding parse_params insert_all
  parse_params-show m [] h = refl
  parse_params-show m (p ∷ ps) h =
      ground (arith, parse_pair-show_pair p h.0, parse_params-show (D.insert p.name p m) ps h.1)

  -- Parsing the query string of plain parameters, one at least, gives the query that is built from
  -- the parameters themselves.
  pub from_str-show_query :
      (p : NameValuePair) (ps : List NameValuePair)
      → All IsPlain (p ∷ ps)
      → from_str D (show_query (p ∷ ps)) ≡ ok (from_vec D (p ∷ ps))
  unfolding from_str from_vec
  from_str-show_query p ps h =
      rw
        (
          trim_clean (show_query (p ∷ ps)) (show_query-not_blank (p ∷ ps) h),
          show_query_no_mark p ps h.0,
          split-show_query p ps h,
          parse_params-show D.empty (p ∷ ps) h,
        )
        refl

  abbrev with_all : Option (List NameValuePair) → List NameValuePair → Option (List NameValuePair)
  with_all o [] = o
  with_all o (v ∷ vs) = with_all (some (with_last o v)) vs

  with_all-some : (xs vs : List NameValuePair) → with_all (some xs) vs ≡ some (xs ++ vs)
  with_all-some xs [] = rw append-nil
  with_all-some xs (v ∷ vs) =
      with_all-some (xs ++ (v ∷ [])) vs ∙ ap some (append_assoc xs (v ∷ []) vs)

  with_all-none : (vs : List NameValuePair) → with_all none vs ≡ unless_empty vs
  with_all-none [] = refl
  with_all-none (v ∷ vs) = with_all-some (v ∷ []) vs

  get_vec-insert_all :
      (m : D.M) (ps : List NameValuePair) (k : Shared.Text)
      → D.get_vec k (insert_all D m ps) ≡ with_all (D.get_vec k m) (named k ps)
  unfolding insert_all
  get_vec-insert_all m [] k = refl
  get_vec-insert_all m (p ∷ ps) k =
      ground (arith, get_vec-insert_all (D.insert p.name p m) ps k, D.get_vec-insert p.name k p m)

  -- A query that is built from parameters has under a name the values of the parameters with that
  -- name, in order; and a lookup of one value finds the first of them.
  pub get_param-from_vec :
      (ps : List NameValuePair) (k : Shared.Text)
      → (get_param_vec D (from_vec D ps) k
          ≡ Option.map (map (λ p. p.value)) (unless_empty (named k ps)))
        × (get_param D (from_vec D ps) k
            ≡ Option.map (λ p. p.value) (first (unless_empty (named k ps))))
  unfolding get_param get_param_vec from_vec
  get_param-from_vec ps k =
      let found : D.get_vec k (insert_all D D.empty ps) ≡ unless_empty (named k ps) =
        get_vec-insert_all D.empty ps k ∙ rw D.get_vec-empty (with_all-none (named k ps)) in
      (rw found refl, rw (D.get_lem, found) refl)
