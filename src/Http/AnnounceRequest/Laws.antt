-- ===== src/Http/AnnounceRequest/Laws.antt =====
-- What announce.rs reads from a query that an announce request was written out to.
use torrust_tracker.Prelude.{
  ℕ, ◌-◌, ◌^◌, ◌<◌, ◌≡◌, refl, ◌∙◌, inl, inr, Option, none, some, List, [], ◌∷◌, arith,
  if◌then◌else◌, ok, Text, text_eq, Bool-cases,
}
use mathlib.Core.Option
use torrust_tracker.Primitives.Peer.{id_of_bytes}
use torrust_tracker.Http.Query.{NameValuePair, MultiMap, Query, first, get_param, from_vec}
use torrust_tracker.Http.Query.RoundTrip.{named, unless_empty, get_param-from_vec}
use torrust_tracker.Http.AnnounceRequest.{
  Decoder, Announce, Event, started, stopped, completed, Compact, accepted, not_accepted,
  extract_info_hash, extract_peer_id, extract_port, extract_number_of_bytes_from_param,
  extract_event, event_of, extract_compact, compact_of, extract_numwant, announce_of_query,
  info_hash_name, peer_id_name, port_name, downloaded_name, uploaded_name, left_name, event_name,
  compact_name, numwant_name,
}
use torrust_tracker.Http.AnnounceRequest.Decimal.{decimal, parse_unsigned-decimal}
use torrust_tracker.Http.AnnounceRequest.Written.{
  Below, InRange, event_text, compact_text, written, other_fields, first_param, other_params,
}

abbrev value_of : Text → List NameValuePair → Option Text
value_of k ps = Option.map (λ p. p.value) (first (unless_empty (named k ps)))

abbrev or_else : Option Text → Option Text → Option Text
or_else none o = o
or_else (some t) o = some t

or_else-none : (o : Option Text) → or_else o none ≡ o
or_else-none none = refl
or_else-none (some t) = refl

-- What a lookup of the name finds among the fields.
abbrev field : Text → List (Text × Option Text) → Option Text
field k [] = none
field k (f ∷ fs) = if text_eq k f.0 then or_else f.1 (field k fs) else field k fs

value_of-written :
    (k : Text) (fs : List (Text × Option Text)) → value_of k (written fs) ≡ field k fs
value_of-written k [] = refl
value_of-written k ((n, none) ∷ fs) = ground (arith, value_of-written k fs)
value_of-written k ((n, some t) ∷ fs) = elim (Bool-cases (text_eq k n)) [
  | inl same ↦ ground arith
  | inr other ↦ ground (arith, value_of-written k fs)
]

module _ (C : Decoder) (D : MultiMap) (info_hash peer_id : Text) (a : Announce) where
  -- The query that is built from the parameters.
  abbrev pub written_query : Query D
  written_query = from_vec D (first_param info_hash ∷ other_params peer_id a)

  get_param-written :
      (k : Text)
      → get_param D written_query k
        ≡ field k ((info_hash_name, some info_hash) ∷ other_fields peer_id a)
  get_param-written k =
      (get_param-from_vec D (first_param info_hash ∷ other_params peer_id a) k).1
      ∙ value_of-written k ((info_hash_name, some info_hash) ∷ other_fields peer_id a)

module _ {C : Decoder} where
  extract_number-decimal :
      (name : Text) (o : Option ℕ)
      → Below (2 ^ 63) o
      → extract_number_of_bytes_from_param {C = C} name (Option.map decimal o) ≡ ok o
  unfolding extract_number_of_bytes_from_param
  extract_number-decimal name none h = refl
  extract_number-decimal name (some n) h =
      ground (arith, parse_unsigned-decimal (2 ^ 64 - 1) n (omega (arith, h)) (omega (arith, h)))

  extract_numwant-decimal :
      (o : Option ℕ) → Below (2 ^ 32) o → extract_numwant {C = C} (Option.map decimal o) ≡ ok o
  unfolding extract_numwant
  extract_numwant-decimal none h = refl
  extract_numwant-decimal (some n) h =
      ground (arith, parse_unsigned-decimal (2 ^ 32 - 1) n (omega (arith, h)) (omega (arith, h)))

  extract_port-decimal : (n : ℕ) → n < 2 ^ 16 → extract_port {C = C} (some (decimal n)) ≡ ok n
  unfolding extract_port
  extract_port-decimal n h =
      ground (arith, parse_unsigned-decimal (2 ^ 16 - 1) n (omega (arith, h)) (omega (arith, h)))

  extract_event-text : (o : Option Event) → extract_event {C = C} (Option.map event_text o) ≡ ok o
  unfolding extract_event event_of
  extract_event-text none = refl
  extract_event-text (some started) = refl
  extract_event-text (some stopped) = refl
  extract_event-text (some completed) = refl

  extract_compact-text :
      (o : Option Compact) → extract_compact {C = C} (Option.map compact_text o) ≡ ok o
  unfolding extract_compact compact_of
  extract_compact-text none = refl
  extract_compact-text (some accepted) = refl
  extract_compact-text (some not_accepted) = refl

module _ (C : Decoder) (D : MultiMap) (info_hash peer_id : Text) (a : Announce) where
  abbrev found : Text → Option Text
  found = get_param D (written_query C D info_hash peer_id a)

  found_lem :
      (found info_hash_name ≡ some info_hash)
      × (found peer_id_name ≡ some peer_id)
      × (found port_name ≡ some (decimal a.port))
      × (found downloaded_name ≡ Option.map decimal a.downloaded)
      × (found uploaded_name ≡ Option.map decimal a.uploaded)
      × (found left_name ≡ Option.map decimal a.left)
      × (found event_name ≡ Option.map event_text a.event)
      × (found compact_name ≡ Option.map compact_text a.compact)
      × (found numwant_name ≡ Option.map decimal a.numwant)
  found_lem =
      let at = get_param-written C D info_hash peer_id a in
      (
        at info_hash_name,
        at peer_id_name,
        at port_name,
        at downloaded_name ∙ or_else-none _,
        at uploaded_name ∙ or_else-none _,
        at left_name ∙ or_else-none _,
        at event_name ∙ or_else-none _,
        at compact_name ∙ or_else-none _,
        at numwant_name ∙ or_else-none _,
      )

  pub announce_of_query-written :
      C.info_hash_of_bytes (C.percent_decode info_hash) ≡ ok a.info_hash
      → id_of_bytes (C.percent_decode peer_id) ≡ ok a.peer_id
      → InRange a
      → announce_of_query C D (written_query C D info_hash peer_id a) ≡ ok a
  unfolding announce_of_query extract_info_hash extract_peer_id
  announce_of_query-written hash id range =
      let (h, i, p, d, u, l, e, c, n) = found_lem in
      rw
        (
          h,
          i,
          p,
          d,
          u,
          l,
          e,
          c,
          n,
          hash,
          id,
          extract_port-decimal {C = C} a.port range.port,
          extract_number-decimal {C = C} downloaded_name a.downloaded range.downloaded,
          extract_number-decimal {C = C} uploaded_name a.uploaded range.uploaded,
          extract_number-decimal {C = C} left_name a.left range.left,
          extract_event-text {C = C} a.event,
          extract_compact-text {C = C} a.compact,
          extract_numwant-decimal {C = C} a.numwant range.numwant,
        )
        refl
