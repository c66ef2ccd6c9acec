-- ===== src/Http/PeerIpResolver.antt =====
-- packages/http-protocol/src/v1/services/peer_ip_resolver.rs: the address of a client, from a header
-- behind a reverse proxy and from the connection otherwise. The errors are without their locations.
use torrust_tracker.Prelude.{
  Bool, true, false, Option, none, some, if◌then◌else◌, Result, ok, err, ◌≡◌, arith,
}
use torrust_tracker.Primitives.Net.{IpAddr}

pub record ClientIpSources : Type 0 where
  pub right_most_x_forwarded_for : Option IpAddr
  pub connection_info_ip : Option IpAddr

pub data PeerIpResolutionError : Type 0 where
  missing_right_most_x_forwarded_for_ip missing_client_ip : PeerIpResolutionError

abbrev or_error : PeerIpResolutionError → Option IpAddr → Result PeerIpResolutionError IpAddr
or_error e none = err e
or_error e (some ip) = ok ip

unfoldable pub resolve_peer_ip_without_reverse_proxy :
    ClientIpSources → Result PeerIpResolutionError IpAddr
resolve_peer_ip_without_reverse_proxy s = or_error missing_client_ip s.connection_info_ip

unfoldable pub resolve_peer_ip_on_reverse_proxy :
    ClientIpSources → Result PeerIpResolutionError IpAddr
resolve_peer_ip_on_reverse_proxy s =
    or_error missing_right_most_x_forwarded_for_ip s.right_most_x_forwarded_for

unfoldable pub invoke : Bool → ClientIpSources → Result PeerIpResolutionError IpAddr
unfolding resolve_peer_ip_without_reverse_proxy resolve_peer_ip_on_reverse_proxy
invoke on_reverse_proxy s =
    if on_reverse_proxy
    then resolve_peer_ip_on_reverse_proxy s
    else resolve_peer_ip_without_reverse_proxy s

-- What a client writes into the header decides its address only behind a proxy, and the address of
-- the connection only without one: two requests that agree on the source that counts have the same
-- address, or the same error.
pub invoke_one_source :
    (proxy : Bool) (s t : ClientIpSources)
    → (if proxy then s.right_most_x_forwarded_for else s.connection_info_ip)
      ≡ (if proxy then t.right_most_x_forwarded_for else t.connection_info_ip)
    → invoke proxy s ≡ invoke proxy t
unfolding invoke
invoke_one_source true s t h = ground arith
invoke_one_source false s t h = ground arith
