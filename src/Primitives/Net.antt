-- ===== src/Primitives/Net.antt =====
-- Addresses of the standard library: an IP address is the number that its bytes spell. A socket
-- address is what `SocketAddr::new` builds; the flow label and scope of IPv6 stay at zero.
use torrust_tracker.Prelude.{ℕ, Bool, true, false, ◌≡◌, ◌↔◌, ◌&&◌, ◌/◌, ◌^◌, arith, ◌==◌}

pub data IpAddr : Type 0 where
  v4 : ℕ → IpAddr
  v6 : ℕ → IpAddr

pub record SocketAddr : Type 0 where
  pub ip : IpAddr
  pub port : ℕ

-- `a == b`
abbrev pub ip_eq : IpAddr → IpAddr → Bool
ip_eq (v4 a) (v4 b) = a == b
ip_eq (v6 a) (v6 b) = a == b
ip_eq (v4 a) (v6 b) = false
ip_eq (v6 a) (v4 b) = false

abbrev pub socket_addr_eq : SocketAddr → SocketAddr → Bool
socket_addr_eq a b = ip_eq a.ip b.ip && a.port == b.port

-- `IpAddr::is_loopback`: 127.0.0.0/8, and ::1.
abbrev pub is_loopback : IpAddr → Bool
is_loopback (v4 a) = a / 2 ^ 24 == 127
is_loopback (v6 a) = a == 1

pub ip_eq_iff : (a b : IpAddr) → (ip_eq a b ≡ true) ↔ (a ≡ b)
ip_eq_iff a b = ground arith

pub socket_addr_eq_iff : (a b : SocketAddr) → (socket_addr_eq a b ≡ true) ↔ (a ≡ b)
socket_addr_eq_iff a b = ground (arith, ip_eq_iff a.ip b.ip)
