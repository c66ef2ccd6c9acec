-- ===== src/Http/AnnounceRequest/Written.antt =====
-- An announce request written out as the parameters of a query, as a client does it, and what
-- announce.rs reads from such a query.
use torrust_tracker.Prelude.{
  ℕ, ◌^◌, ◌<◌, ◌≡◌, refl, true, Option, none, some, List, [], ◌∷◌, arith, Text, codes, all_b, All,
}
use mathlib.Core.Option
use torrust_tracker.Http.Query.{NameValuePair}
use torrust_tracker.Http.Query.Text.{lacks}
use torrust_tracker.Http.Query.RoundTrip.{is_plain, IsPlain}
use torrust_tracker.Http.AnnounceRequest.{
  Announce, Event, started, stopped, completed, Compact, accepted, not_accepted, info_hash_name,
  peer_id_name, port_name, downloaded_name, uploaded_name, left_name, event_name, compact_name,
  numwant_name,
}
use torrust_tracker.Http.AnnounceRequest.Decimal.{decimal, decimal_plain}

-- A number that may be missing lies below a bound.
abbrev pub Below : ℕ → Option ℕ → Type 0
Below bound none = Unit
Below bound (some n) = n < bound

-- The numbers of a request that the types of its fields hold.
pub record InRange (a : Announce) : Type 0 where
  pub port : a.port < 2 ^ 16
  pub downloaded : Below (2 ^ 63) a.downloaded
  pub uploaded : Below (2 ^ 63) a.uploaded
  pub left : Below (2 ^ 63) a.left
  pub numwant : Below (2 ^ 32) a.numwant

abbrev pub event_text : Event → Text
event_text started = codes "started"
event_text stopped = codes "stopped"
event_text completed = codes "completed"

abbrev pub compact_text : Compact → Text
compact_text accepted = codes "1"
compact_text not_accepted = codes "0"

-- The parameters of the fields that are there, each a name and what is written behind it.
abbrev pub written : List (Text × Option Text) → List NameValuePair
written [] = []
written ((name, none) ∷ fs) = written fs
written ((name, some t) ∷ fs) = record { name = name; value = t } ∷ written fs

-- The fields of a request behind its info hash, whose peer id is written with this text.
abbrev pub other_fields : Text → Announce → List (Text × Option Text)
other_fields peer_id a =
    (peer_id_name, some peer_id)
    ∷ (port_name, some (decimal a.port))
    ∷ (downloaded_name, Option.map decimal a.downloaded)
    ∷ (uploaded_name, Option.map decimal a.uploaded)
    ∷ (left_name, Option.map decimal a.left)
    ∷ (event_name, Option.map event_text a.event)
    ∷ (compact_name, Option.map compact_text a.compact)
    ∷ (numwant_name, Option.map decimal a.numwant)
    ∷ []

-- The parameters of a request whose info hash and peer id are written with these texts.
abbrev pub first_param : Text → NameValuePair
first_param info_hash = record { name = info_hash_name; value = info_hash }

abbrev pub other_params : Text → Announce → List NameValuePair
other_params peer_id a = written (other_fields peer_id a)

-- A field with a plain name that has no question mark, and a plain content if any.
record IsPlainField (f : Text × Option Text) : Type 0 where
  name : all_b is_plain f.0 ≡ true
  no_mark : lacks b'?' f.0 ≡ true
  content : (t : Text) → f.1 ≡ some t → all_b is_plain t ≡ true

written-IsPlain : (fs : List (Text × Option Text)) → All IsPlainField fs → All IsPlain (written fs)
written-IsPlain [] h = tt
written-IsPlain ((n, none) ∷ fs) h = written-IsPlain fs h.1
written-IsPlain ((n, some t) ∷ fs) h = (
  record { name = h.0.name; value = h.0.content t refl; no_mark = h.0.no_mark },
  written-IsPlain fs h.1,
)

map_plain :
    {A : Type 0} (f : A → Text) (o : Option A)
    → ((a : A) → all_b is_plain (f a) ≡ true)
    → (t : Text) → Option.map f o ≡ some t
    → all_b is_plain t ≡ true
map_plain f none h t e = cc
map_plain f (some a) h t e = ground (arith, h a)

event_plain : (e : Event) → all_b is_plain (event_text e) ≡ true
event_plain started = refl
event_plain stopped = refl
event_plain completed = refl

compact_plain : (c : Compact) → all_b is_plain (compact_text c) ≡ true
compact_plain accepted = refl
compact_plain not_accepted = refl

some_plain :
    (s : Text) → all_b is_plain s ≡ true → (t : Text) → some s ≡ some t → all_b is_plain t ≡ true
some_plain s h t e = ground arith

plain_number : (o : Option ℕ) (t : Text) → Option.map decimal o ≡ some t → all_b is_plain t ≡ true
plain_number o = map_plain decimal o decimal_plain

pub other_params-IsPlain :
    (peer_id : Text) (a : Announce)
    → all_b is_plain peer_id ≡ true
    → All IsPlain (other_params peer_id a)
other_params-IsPlain peer_id a h = written-IsPlain (other_fields peer_id a) (
  record { name = refl; no_mark = refl; content = some_plain peer_id h },
  (
    record {
      name = refl;
      no_mark = refl;
      content = some_plain (decimal a.port) (decimal_plain a.port);
    },
    (
      record { name = refl; no_mark = refl; content = plain_number a.downloaded },
      (
        record { name = refl; no_mark = refl; content = plain_number a.uploaded },
        (
          record { name = refl; no_mark = refl; content = plain_number a.left },
          (
            record {
              name = refl;
              no_mark = refl;
              content = map_plain event_text a.event event_plain;
            },
            (
              record {
                name = refl;
                no_mark = refl;
                content = map_plain compact_text a.compact compact_plain;
              },
              (record { name = refl; no_mark = refl; content = plain_number a.numwant }, tt),
            ),
          ),
        ),
      ),
    ),
  ),
)
