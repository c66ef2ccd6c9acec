-- ===== src/Primitives/Peer.antt =====
-- packages/primitives/src/peer.rs: a peer of a swarm. Times are numbers of nanoseconds since the
-- epoch, peer ids the numbers that their 20 bytes spell.
use torrust_tracker.Prelude.{
  ℕ, ◌+◌, ◌*◌, Bool, true, false, not, ◌&&◌, ◌≡◌, ◌↔◌, ℤ, nonpositive, arith, List, [], ◌∷◌, Result,
  ok, err, length, ltb, if◌then◌else◌,
}
use torrust_tracker.Primitives.Net.{IpAddr, SocketAddr}

pub data AnnounceEvent : Type 0 where
  started stopped completed none : AnnounceEvent

abbrev pub event_eq : AnnounceEvent → AnnounceEvent → Bool
event_eq started started = true
event_eq stopped stopped = true
event_eq completed completed = true
event_eq none none = true
event_eq _ _ = false

pub event_eq_iff : (a b : AnnounceEvent) → (event_eq a b ≡ true) ↔ (a ≡ b)
event_eq_iff a b = ground arith

pub record Peer : Type 0 where
  pub peer_id : ℕ
  pub peer_addr : SocketAddr
  pub updated : ℕ
  pub uploaded : ℤ
  pub downloaded : ℤ
  pub left : ℤ
  pub event : AnnounceEvent

unfoldable pub is_seeder : Peer → Bool
is_seeder p = nonpositive p.left && not (event_eq p.event stopped)

unfoldable pub change_ip : Peer → IpAddr → Peer
change_ip p new_ip = record p { peer_addr = record { ip = new_ip; port = p.peer_addr.port } }

-- `PEER_ID_BYTES_LEN`
abbrev pub peer_id_bytes_len : ℕ
peer_id_bytes_len = 20

pub data IdConversionError : Type 0 where
  not_enough_bytes too_many_bytes : IdConversionError

-- The number that bytes spell, most significant byte first.
abbrev pub spelled : ℕ → List ℕ → ℕ
spelled n [] = n
spelled n (b ∷ bs) = spelled (n * 256 + b) bs

-- `TryFrom<Vec<u8>> for Id`
unfoldable pub id_of_bytes : List ℕ → Result IdConversionError ℕ
id_of_bytes bytes =
    if ltb (length bytes) peer_id_bytes_len
    then err not_enough_bytes
    else if ltb peer_id_bytes_len (length bytes)
    then err too_many_bytes
    else ok (spelled 0 bytes)
