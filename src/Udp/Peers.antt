-- ===== src/Udp/Peers.antt =====
-- The peers: `RegisterPeer`, `HandleDiscovery`, `TouchGameplayPeer`, `ExpirePeers`,
-- `SnapshotDestinations`, and the greetings. The name of the local player is what
-- `GetLocalPlayerName` gives, and `now` the steady clock in milliseconds.
pub mod Destinations
pub mod Lifetime
use iedsync_together.Prelude.{
  ℕ, ◌+◌, ◌-◌, ◌≡◌, refl, Bool, true, false, not, ◌&&◌, ◌||◌, List, [], ◌∷◌, ◌++◌, Option, none,
  some, leb, ltb, ◌==◌, if◌then◌else◌, map, ◌>>=◌, is_some,
}
use iedsync_together.Text.{Bytes, codes, starts_with, is_empty, equal}
use iedsync_together.Text.Number.{Fmt, stoul}
use iedsync_together.FormIdentity.Hex.{hex_encode, hex_decode}
use iedsync_together.Packet.{gameplay_prefix, read_field}
use iedsync_together.Dict.{lookup, insert, member, add, bytes_eq}
use iedsync_together.Udp.{
  Windows, Endpoint, same_endpoint, address_to_string, Peer, Transport, Action, tx,
}
use iedsync_together.Udp.Auth.{sign_packet}

-- `kDiscoveryPrefix`.
abbrev pub discovery_prefix : Bytes
discovery_prefix = codes "IEDSTDISC|v1|HELLO|"

-- `0` is no port.
unfoldable pub parse_port : Option Bytes → ℕ
parse_port none = 0
parse_port (some value) = if is_empty value then 0 else elim (stoul 10 value) [
  | none ↦ 0
  | some parsed ↦ if parsed == 0 || ltb 65535 parsed then 0 else parsed
]

unfoldable pub send_packet_to : Transport → Bytes → Endpoint → List Action
send_packet_to t packet destination =
    if is_empty packet || not t.has_socket then [] else tx packet destination ∷ []

abbrev pub value_or : Bytes → Option Bytes → Bytes
value_or default none = default
value_or default (some value) = value

-- `excluded && SameEndpoint(peer, *excluded)`.
unfoldable pub is_excluded : Option Endpoint → Endpoint → Bool
is_excluded none peer = false
is_excluded (some endpoint) peer = same_endpoint peer endpoint

module _ ⦃w : Windows⦄ ⦃f : Fmt⦄ where
  unfoldable pub hello : Transport → Bytes → Bool → Bytes
  hello t player_name use_observed =
      discovery_prefix
      ++ (codes "id="
          ++ (t.instance_id
              ++ (codes "|name="
                  ++ (hex_encode player_name
                      ++ (codes "|port="
                          ++ (f.dec t.config.local_port
                              ++ (codes "|observed="
                                  ++ (if use_observed then codes "1" else codes "0"))))))))

  unfoldable pub send_hello_to : Transport → Bytes → Endpoint → Bool → List Action
  send_hello_to t player_name destination use_observed =
      send_packet_to t (sign_packet t.shared_secret (hello t player_name use_observed)) destination

  unfoldable pub greet_all : Transport → Bytes → List Endpoint → List Action
  greet_all t player_name [] = []
  greet_all t player_name (peer ∷ peers) =
      send_hello_to t player_name peer true ++ greet_all t player_name peers

  unfoldable pub send_hello : Transport → Bytes → List Action
  send_hello t player_name =
      if not t.running || not t.has_socket
      then []
      else (if t.config.auto_discovery then send_hello_to t player_name t.broadcast false else [])
        ++ greet_all t player_name t.configured_peers

  abbrev pub peer_key : Bytes → Endpoint → Bytes
  peer_key instance_id address = instance_id ++ (codes "|" ++ address_to_string address)

  unfoldable pub register_peer :
      Transport → ℕ → Bytes → Endpoint → ℕ → Bytes → Bytes → Transport × List Action
  register_peer t now player_name source advertised_port name instance_id =
      if is_empty instance_id || equal instance_id t.instance_id
      then (t, [])
      else let address = record source { port = advertised_port } in
        let key = peer_key instance_id address in
        let peer : Peer = record {
          address = address;
          name = name;
          instance_id = instance_id;
          last_seen = now;
        } in
        let t' = record t { peers = insert key peer t.peers } in
        (t', if is_some (lookup key t.peers) then [] else send_hello_to t' player_name address true)

  -- `observed && *observed == "1"`.
  abbrev pub is_one : Option Bytes → Bool
  is_one none = false
  is_one (some value) = equal value (codes "1")

  -- `none` is the result `false`: the packet is no greeting.
  unfoldable pub handle_discovery :
      Transport → ℕ → Bytes → Bytes → Endpoint → Option (Transport × List Action)
  handle_discovery t now player_name packet source =
      if not (starts_with packet discovery_prefix)
      then none
      else let port =
          if is_one (read_field packet (codes "observed"))
          then source.port
          else parse_port (read_field packet (codes "port")) in
        some (elim (read_field packet (codes "id")) [
          | none ↦ (t, [])
          | some id ↦ elim (read_field packet (codes "name")) [
            | none ↦ (t, [])
            | some encoded_name ↦
                if port == 0
                then (t, [])
                else register_peer t now player_name source port
                    (value_or (codes "Peer") (hex_decode encoded_name)) id
          ]
        ])

  abbrev pub gameplay_key : Endpoint → Bytes
  gameplay_key source = codes "gameplay|" ++ address_to_string source

  unfoldable pub touch_gameplay_peer : Transport → ℕ → Bytes → Endpoint → Transport
  touch_gameplay_peer t now packet source =
      if not (starts_with packet gameplay_prefix)
      then t
      else let name = read_field packet (codes "from") >>= hex_decode in
        let key = gameplay_key source in
        record t {
          peers =
              insert key
                (record {
                  address = source;
                  name = value_or (codes "Peer") name;
                  instance_id = key;
                  last_seen = now;
                })
                t.peers;
        }

  -- The loop over one of the two lists: the endpoints that it adds, and those that have been seen.
  unfoldable pub collect : Option Endpoint → List Bytes → List Endpoint → List Endpoint × List Bytes
  collect excluded seen [] = ([], seen)
  collect excluded seen (peer ∷ peers) =
      let endpoint = address_to_string peer in
      let skip = is_excluded excluded peer || member endpoint seen in
      let (result, seen') = collect excluded (if skip then seen else endpoint ∷ seen) peers in
      (if skip then result else peer ∷ result, seen')

  unfoldable pub addresses : List (Bytes × Peer) → List Endpoint
  addresses [] = []
  addresses ((key, peer) ∷ peers) = peer.address ∷ addresses peers

  unfoldable pub snapshot_destinations : Transport → Option Endpoint → List Endpoint
  snapshot_destinations t excluded =
      let (configured, seen) = collect excluded [] t.configured_peers in
      let (found, _) = collect excluded seen (addresses t.peers) in configured ++ found

unfoldable pub drop_expired : ℕ → ℕ → List (Bytes × Peer) → List (Bytes × Peer)
drop_expired now timeout [] = []
drop_expired now timeout ((key, peer) ∷ peers) =
    let rest = drop_expired now timeout peers in
    if ltb timeout (now - peer.last_seen) then rest else (key, peer) ∷ rest

unfoldable pub expire_peers : Transport → ℕ → Transport
unfolding drop_expired
expire_peers t now = record t { peers = drop_expired now t.config.peer_timeout_ms t.peers }
