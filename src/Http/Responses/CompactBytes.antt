-- ===== src/Http/Responses/CompactBytes.antt =====
-- The compact form of the peers: 6 bytes for a peer of IPv4 and 18 for one of IPv6.
use torrust_tracker.Prelude.{
  ℕ, zero, suc, ◌+◌, ◌*◌, ◌/◌, ◌%◌, ◌<◌, ◌≡◌, ◌∙◌, ap, refl, List, [], ◌∷◌, ◌++◌, arith, length,
  take, drop, length-append, All,
}
use native.Mathlib.Nat.{suc-mul}
use torrust_tracker.Primitives.Peer.{spelled}
use torrust_tracker.Http.Responses.{CompactPeerData, to_be_bytes, encode_peers}

length-to_be_bytes : (n x : ℕ) → length (to_be_bytes n x) ≡ n
unfolding to_be_bytes
length-to_be_bytes zero x = refl
length-to_be_bytes (suc n) x =
    ground (
      arith,
      length-append (to_be_bytes n (x / 256)) (x % 256 ∷ []),
      length-to_be_bytes n (x / 256),
    )

spelled-append : (n : ℕ) (l m : List ℕ) → spelled n (l ++ m) ≡ spelled (spelled n l) m
spelled-append n [] m = refl
spelled-append n (b ∷ l) m = spelled-append (n * 256 + b) l m

-- The number of values of `n` bytes.
abbrev pub values : ℕ → ℕ
values zero = 1
values (suc n) = 256 * values n

spelled-to_be_bytes : (n x : ℕ) → x < values n → spelled 0 (to_be_bytes n x) ≡ x
unfolding to_be_bytes
spelled-to_be_bytes zero x h = omega arith
spelled-to_be_bytes (suc n) x h =
    spelled-append 0 (to_be_bytes n (x / 256)) (x % 256 ∷ [])
    ∙ ap (λ q. q * 256 + x % 256) (spelled-to_be_bytes n (x / 256) (omega arith))
    ∙ omega arith

-- How a client reads the bytes of `n` peers: the address, then the port.
abbrev pub decode_peers : ℕ → ℕ → List ℕ → List CompactPeerData
decode_peers width zero bytes = []
decode_peers width (suc n) bytes =
    record { ip = spelled 0 (take width bytes); port = spelled 0 (take 2 (drop width bytes)) }
    ∷ decode_peers width n (drop 2 (drop width bytes))

-- An address fits its bytes and a port its 2.
abbrev pub Fits : ℕ → CompactPeerData → Type 0
Fits width p = (p.ip < values width) × (p.port < values 2)

-- A prefix of known length is taken and dropped.
take-append : (n : ℕ) (l m : List ℕ) → length l ≡ n → take n (l ++ m) ≡ l
take-append zero [] m h = refl
take-append zero (b ∷ l) m h = absurd (omega arith)
take-append (suc n) [] m h = absurd (omega arith)
take-append (suc n) (b ∷ l) m h = ap (λ r. b ∷ r) (take-append n l m (omega arith))

drop-append : (n : ℕ) (l m : List ℕ) → length l ≡ n → drop n (l ++ m) ≡ m
drop-append zero [] m h = refl
drop-append zero (b ∷ l) m h = absurd (omega arith)
drop-append (suc n) [] m h = absurd (omega arith)
drop-append (suc n) (b ∷ l) m h = drop-append n l m (omega arith)

decode_peers_step :
    (width n : ℕ) (l m rest : List ℕ)
    → length l ≡ width
    → length m ≡ 2
    → decode_peers width (suc n) (l ++ (m ++ rest))
      ≡ record { ip = spelled 0 l; port = spelled 0 m } ∷ decode_peers width n rest
decode_peers_step width n l m rest h k =
    let dropped = drop-append width l (m ++ rest) h in
    let address = take-append width l (m ++ rest) h in
    let port = ap (take 2) dropped ∙ take-append 2 m rest k in
    let after = ap (drop 2) dropped ∙ drop-append 2 m rest k in
    λ i.
      record { ip = spelled 0 (address i); port = spelled 0 (port i) }
      ∷ decode_peers width n (after i)

-- A client that knows the number of the peers reads from their bytes the peers themselves, in their
-- order, if every address fits its bytes and every port its two.
pub decode_peers-encode_peers :
    (width : ℕ) (peers : List CompactPeerData)
    → All (Fits width) peers
    → decode_peers width (length peers) (encode_peers width peers) ≡ peers
unfolding encode_peers
decode_peers-encode_peers width [] fits = refl
decode_peers-encode_peers width (p ∷ peers) fits =
    decode_peers_step width (length peers) (to_be_bytes width p.ip) (to_be_bytes 2 p.port)
      (encode_peers width peers) (length-to_be_bytes width p.ip) (length-to_be_bytes 2 p.port)
    ∙ (λ i.
        record {
          ip = spelled-to_be_bytes width p.ip fits.0.0 i;
          port = spelled-to_be_bytes 2 p.port fits.0.1 i;
        }
        ∷ decode_peers-encode_peers width peers fits.1 i)

-- The number of bytes of the encoded peers is that of the peers times that of one peer.
pub length-encode_peers :
    (width : ℕ) (peers : List CompactPeerData)
    → length (encode_peers width peers) ≡ length peers * (width + 2)
unfolding encode_peers
length-encode_peers width [] = omega arith
length-encode_peers width (p ∷ peers) = omega (
  arith,
  length-append (to_be_bytes width p.ip) (to_be_bytes 2 p.port ++ encode_peers width peers),
  length-append (to_be_bytes 2 p.port) (encode_peers width peers),
  length-to_be_bytes width p.ip,
  length-to_be_bytes 2 p.port,
  length-encode_peers width peers,
  suc-mul (length peers) (width + 2),
)
