-- ===== src/Http/AnnounceRequest.antt =====
-- packages/http-protocol/src/v1/requests/announce.rs: the announce request that is read from a query.
-- The decoding of percent-encoded texts and the info hash of its bytes are crates, and arguments here.
pub mod Decimal
pub mod Written
pub mod Laws
use torrust_tracker.Prelude.{
  ℕ, ◌+◌, ◌-◌, ◌*◌, ◌^◌, Bool, true, false, ◌&&◌, Option, none, some, List, [], ◌∷◌, if◌then◌else◌,
  Result, ok, err, ltb, leb, ◌==◌, Text, codes, text_eq, ◌>>=◌,
}
use torrust_tracker.Primitives.Peer.{IdConversionError, id_of_bytes}
use torrust_tracker.Http.Query.{MultiMap, Query, get_param}

-- The digits of a decimal number that is at most `limit`, after the number `n`.
unfoldable pub parse_digits : ℕ → ℕ → Text → Option ℕ
parse_digits limit n [] = some n
parse_digits limit n (c ∷ s) =
    let m = n * 10 + (c - b'0') in
    let rest = parse_digits limit m s in
    if leb b'0' c && leb c b'9' then (if ltb limit m then none else rest) else none

-- What follows an optional plus sign.
abbrev without_plus : Text → Text
without_plus [] = []
without_plus (c ∷ s) = if c == b'+' then s else c ∷ s

abbrev unless_nil : Text → Option ℕ → Option ℕ
unless_nil [] o = none
unless_nil (c ∷ s) o = o

-- `from_str` of the unsigned integers up to `limit`: one digit at least, a plus sign allowed.
unfoldable pub parse_unsigned : ℕ → Text → Option ℕ
unfolding parse_digits
parse_unsigned limit s = unless_nil (without_plus s) (parse_digits limit 0 (without_plus s))

pub data Event : Type 0 where
  started stopped completed : Event

pub data Compact : Type 0 where
  accepted not_accepted : Compact

-- The crates that decode a percent-encoded text, and make an info hash of its bytes.
pub record Decoder : Type 1 where
  pub ConversionError : Type 0
  pub percent_decode : Text → List ℕ
  pub info_hash_of_bytes : List ℕ → Result ConversionError ℕ

pub record Announce : Type 0 where
  pub info_hash : ℕ
  pub peer_id : ℕ
  pub port : ℕ
  pub downloaded : Option ℕ
  pub uploaded : Option ℕ
  pub left : Option ℕ
  pub event : Option Event
  pub compact : Option Compact
  pub numwant : Option ℕ

module _ (C : Decoder) where
  pub data ParseAnnounceQueryError : Type 0 where
    missing_param : Text → ParseAnnounceQueryError
    invalid_param : Text → Text → ParseAnnounceQueryError
    number_of_bytes_overflow : Text → Text → ParseAnnounceQueryError
    invalid_info_hash_param : Text → Text → C.ConversionError → ParseAnnounceQueryError
    invalid_peer_id_param : Text → Text → IdConversionError → ParseAnnounceQueryError

-- The names of the parameters.
abbrev pub info_hash_name : Text
info_hash_name = codes "info_hash"

abbrev pub peer_id_name : Text
peer_id_name = codes "peer_id"

abbrev pub port_name : Text
port_name = codes "port"

abbrev pub downloaded_name : Text
downloaded_name = codes "downloaded"

abbrev pub uploaded_name : Text
uploaded_name = codes "uploaded"

abbrev pub left_name : Text
left_name = codes "left"

abbrev pub event_name : Text
event_name = codes "event"

abbrev pub compact_name : Text
compact_name = codes "compact"

abbrev pub numwant_name : Text
numwant_name = codes "numwant"

module _ {C : Decoder} where
  abbrev map_err {ℓ} :
      {E : Type 0} {A : Type ℓ}
      → (E → ParseAnnounceQueryError C)
      → Result E A
      → Result (ParseAnnounceQueryError C) A
  map_err f (ok a) = ok a
  map_err f (err e) = err (f e)

  abbrev or_invalid : Text → Text → Option ℕ → Result (ParseAnnounceQueryError C) ℕ
  or_invalid name raw none = err (invalid_param name raw)
  or_invalid name raw (some n) = ok n

  -- A mandatory and an optional parameter, with what reads it.
  abbrev mandatory :
      Text
      → (Text → Result (ParseAnnounceQueryError C) ℕ)
      → Option Text
      → Result (ParseAnnounceQueryError C) ℕ
  mandatory name read none = err (missing_param name)
  mandatory name read (some raw) = read raw

  abbrev optional :
      {A : Type 0}
      → (Text → Result (ParseAnnounceQueryError C) A)
      → Option Text
      → Result (ParseAnnounceQueryError C) (Option A)
  optional read none = ok none
  optional read (some raw) = read raw >>= (λ a. ok (some a))

  unfoldable pub extract_info_hash : Option Text → Result (ParseAnnounceQueryError C) ℕ
  extract_info_hash = mandatory info_hash_name (λ raw.
      map_err (invalid_info_hash_param info_hash_name raw)
        (C.info_hash_of_bytes (C.percent_decode raw)))

  unfoldable pub extract_peer_id : Option Text → Result (ParseAnnounceQueryError C) ℕ
  extract_peer_id =
      mandatory peer_id_name (λ raw.
        map_err (invalid_peer_id_param peer_id_name raw) (id_of_bytes (C.percent_decode raw)))

  unfoldable pub extract_port : Option Text → Result (ParseAnnounceQueryError C) ℕ
  extract_port =
      mandatory port_name (λ raw. or_invalid port_name raw (parse_unsigned (2 ^ 16 - 1) raw))

  -- A `u64` that must fit in an `i64`.
  abbrev number_of_bytes : Text → Text → ℕ → Result (ParseAnnounceQueryError C) ℕ
  number_of_bytes name raw n =
      if ltb n (2 ^ 63) then ok n else err (number_of_bytes_overflow name raw)

  unfoldable pub extract_number_of_bytes_from_param :
      Text → Option Text → Result (ParseAnnounceQueryError C) (Option ℕ)
  extract_number_of_bytes_from_param name =
      optional
        (λ raw. or_invalid name raw (parse_unsigned (2 ^ 64 - 1) raw) >>= number_of_bytes name raw)

  unfoldable pub event_of : Text → Result (ParseAnnounceQueryError C) Event
  event_of raw =
      if text_eq raw (codes "started")
      then ok started
      else if text_eq raw (codes "stopped")
      then ok stopped
      else if text_eq raw (codes "completed")
      then ok completed
      else err (invalid_param event_name raw)

  unfoldable pub compact_of : Text → Result (ParseAnnounceQueryError C) Compact
  compact_of raw =
      if text_eq raw (codes "1")
      then ok accepted
      else if text_eq raw (codes "0")
      then ok not_accepted
      else err (invalid_param compact_name raw)

  unfoldable pub extract_event : Option Text → Result (ParseAnnounceQueryError C) (Option Event)
  extract_event = optional event_of

  unfoldable pub extract_compact : Option Text → Result (ParseAnnounceQueryError C) (Option Compact)
  extract_compact = optional compact_of

  unfoldable pub extract_numwant : Option Text → Result (ParseAnnounceQueryError C) (Option ℕ)
  extract_numwant = optional (λ raw. or_invalid numwant_name raw (parse_unsigned (2 ^ 32 - 1) raw))

-- `TryFrom<Query> for Announce`
unfoldable pub announce_of_query :
    (C : Decoder) (D : MultiMap) → Query D → Result (ParseAnnounceQueryError C) Announce
announce_of_query C D q = do
  info_hash ← extract_info_hash (get_param D q info_hash_name)
  peer_id ← extract_peer_id (get_param D q peer_id_name)
  port ← extract_port (get_param D q port_name)
  downloaded ← extract_number_of_bytes_from_param downloaded_name (get_param D q downloaded_name)
  uploaded ← extract_number_of_bytes_from_param uploaded_name (get_param D q uploaded_name)
  left ← extract_number_of_bytes_from_param left_name (get_param D q left_name)
  event ← extract_event (get_param D q event_name)
  compact ← extract_compact (get_param D q compact_name)
  numwant ← extract_numwant (get_param D q numwant_name)
  ok (record {
    info_hash = info_hash;
    peer_id = peer_id;
    port = port;
    downloaded = downloaded;
    uploaded = uploaded;
    left = left;
    event = event;
    compact = compact;
    numwant = numwant;
  })
