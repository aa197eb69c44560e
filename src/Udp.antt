-- ===== src/Udp.antt =====
-- src/UdpTransport.h and src/UdpTransport.cpp: the transport over UDP, its peers, its signatures and
-- its relay. An IPv4 address is the number `s_addr`, a port a number in the host's order. A call is
-- one step on the transport's members; the datagrams that it sends and the packets that it hands on
-- are its results.
pub mod Auth
pub mod Peers
pub mod Sending
pub mod Receiver
pub mod Starting
use iedsync_together.Prelude.{ℕ, ◌≡◌, refl, Bool, ◌&&◌, List, ◌++◌, Option, ◌==◌}
use iedsync_together.Text.{Bytes, codes}
use iedsync_together.Text.Number.{Fmt}
use iedsync_together.Config.{Config}

-- What the transport takes of Windows: the HMAC-SHA256 digest of the BCrypt functions (`none` if one
-- of them fails) and the text of an address by `InetNtopA`.
pub record Windows : Type 0 where
  pub hmac_sha256 : Bytes → Bytes → Option Bytes
  pub inet_ntop : ℕ → Bytes

-- `sockaddr_in`.
pub record Endpoint : Type 0 where
  pub s_addr : ℕ
  pub port : ℕ

unfoldable pub same_endpoint : Endpoint → Endpoint → Bool
same_endpoint left right = left.s_addr == right.s_addr && left.port == right.port

unfoldable pub address_to_string : ⦃w : Windows⦄ → ⦃f : Fmt⦄ → Endpoint → Bytes
address_to_string ⦃w⦄ ⦃f⦄ address = w.inet_ntop address.s_addr ++ (codes ":" ++ f.dec address.port)

pub record Peer : Type 0 where
  pub address : Endpoint
  pub name : Bytes
  pub instance_id : Bytes
  pub last_seen : ℕ

-- The members of the class. The handler and the threads are there while it runs.
pub record Transport : Type 0 where
  pub config : Config
  pub running : Bool
  pub has_socket : Bool
  pub broadcast : Endpoint
  pub configured_peers : List Endpoint
  pub shared_secret : Bytes
  pub instance_id : Bytes
  pub peers : List (Bytes × Peer)

-- What a call does: a datagram is given to `sendto`, or a packet to the handler.
pub data Action : Type 0 where
  tx : Bytes → Endpoint → Action
  deliver : Bytes → Action
