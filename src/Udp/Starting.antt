-- ===== src/Udp/Starting.antt =====
-- `Start`, `RefreshSkyrimTogetherAutoConfig`, `ResolveRemotePeer`, `GetLocalPlayerName` and a round of
-- `MaintenanceLoop` of src/UdpTransport.cpp. What the calls of Windows give is a parameter, and so are
-- the files that the discovery of the server reads.
pub mod Distinct
use iedsync_together.Prelude.{
  ℕ, ◌-◌, ◌≡◌, refl, Bool, true, false, not, ◌&&◌, ◌||◌, List, [], ◌∷◌, ◌++◌, Option, none, some,
  ltb, ◌==◌, if◌then◌else◌, is_some, ◌>>=◌,
}
use iedsync_together.Text.{Bytes, codes, equal, is_empty}
use iedsync_together.Text.Number.{Fmt}
use iedsync_together.Dict.{member, bytes_eq}
use iedsync_together.Packet.{sanitize_field}
use iedsync_together.Config.{RemotePeer, Config}
use iedsync_together.ServerDiscovery.{
  SavedServer, read_client_state, read_server_password_from_config,
}
use iedsync_together.ServerDiscovery.Values.{StorageFile}
use iedsync_together.Udp.{Windows, Endpoint, same_endpoint, address_to_string, Transport, Action}
use iedsync_together.Udp.Peers.{send_hello, expire_peers}

-- An address of `getaddrinfo`.
pub record AddressInfo : Type 0 where
  pub is_inet : Bool
  pub is_long_enough : Bool
  pub address : Endpoint

-- Whether the sockets start, one is made and it is bound, the id of the process at this time, the
-- names of the player and the computer, and `getaddrinfo`, `none` on an error or without a list.
pub record UdpHost : Type 0 where
  pub wsa_starts : Bool
  pub makes_socket : Bool
  pub binds : Bool
  pub instance_id : Bytes
  pub player_name : Option Bytes
  pub computer_name : Option Bytes
  pub getaddrinfo : Bytes → Bytes → Option (List AddressInfo)

-- The files that the discovery of the server reads.
pub record Disk : Type 0 where
  pub local_storage : Option (List StorageFile)
  pub matches : Bytes → List SavedServer
  pub server_config : Option Bytes

-- The transport with the time of the last refresh, zero before the first.
pub record UdpTransport : Type 0 where
  pub transport : Transport
  pub last_refresh : ℕ

computer_or_player : Option Bytes → Bytes
computer_or_player none = codes "Player"
computer_or_player (some name) = if is_empty name then codes "Player" else sanitize_field name

unfoldable pub get_player_name : UdpHost → Bytes
unfolding computer_or_player
get_player_name host = elim host.player_name [
  | none ↦ computer_or_player host.computer_name
  | some name ↦ if is_empty name then computer_or_player host.computer_name else sanitize_field name
]

unfoldable pub first_inet : List AddressInfo → Option Endpoint
first_inet [] = none
first_inet (item ∷ items) =
    let rest = first_inet items in
    if item.is_inet && item.is_long_enough then some item.address else rest

unfoldable pub resolve_remote_peer : ⦃f : Fmt⦄ → UdpHost → RemotePeer → Option Endpoint
unfolding first_inet
resolve_remote_peer ⦃f⦄ host peer = host.getaddrinfo peer.host (f.dec peer.port) >>= first_inet

unfoldable pub any_same : Endpoint → List Endpoint → Bool
any_same resolved [] = false
any_same resolved (peer ∷ peers) = same_endpoint peer resolved || any_same resolved peers

unfoldable pub stored_password : Disk → Config → Option Bytes
stored_password disk config =
    if config.relay_mode
    then read_server_password_from_config disk.server_config
    else (read_client_state disk.local_storage disk.matches config.auto_remote_port).password

unfoldable pub auto_secret : Disk → Transport → Transport
unfolding stored_password
auto_secret disk t =
    let config = t.config in
    if not (config.auto_shared_secret_from_str && is_empty config.shared_secret)
    then t
    else elim (stored_password disk config) [
      | none ↦ t
      | some password ↦ if is_empty password then t else record t { shared_secret = password }
    ]

unfoldable pub stored_peer : Disk → Config → Option RemotePeer
stored_peer disk config =
    (read_client_state disk.local_storage disk.matches config.auto_remote_port).remote_peer

-- `push_back` of a peer that is not there.
unfoldable pub add_configured : Endpoint → Transport → Transport
unfolding any_same
add_configured resolved t =
    if any_same resolved t.configured_peers
    then t
    else record t { configured_peers = t.configured_peers ++ resolved ∷ [] }

module _ ⦃f : Fmt⦄ where
  unfoldable pub auto_remote : UdpHost → Disk → Transport → Transport
  unfolding resolve_remote_peer stored_peer add_configured
  auto_remote host disk t =
      let config = t.config in
      if not config.auto_remote_from_str || config.relay_mode
      then t
      else elim (stored_peer disk config >>= resolve_remote_peer host) [
        | none ↦ t
        | some resolved ↦ add_configured resolved t
      ]

  unfoldable pub refresh_skyrim_together_auto_config :
      UdpHost → Disk → ℕ → Bool → UdpTransport → UdpTransport
  unfolding auto_secret auto_remote
  refresh_skyrim_together_auto_config host disk now force u =
      let config = u.transport.config in
      if not config.auto_remote_from_str && not config.auto_shared_secret_from_str
      then u
      else if not force && not (u.last_refresh == 0) && ltb (now - u.last_refresh) 5000
      then u
      else record {
        transport = auto_remote host disk (auto_secret disk u.transport);
        last_refresh = now;
      }

module _ ⦃w : Windows⦄ ⦃f : Fmt⦄ where
  -- The peers of the settings that can be resolved, one of each text.
  unfoldable pub configure_peers : UdpHost → List Bytes → List RemotePeer → List Endpoint
  unfolding resolve_remote_peer
  configure_peers host seen [] = []
  configure_peers host seen (peer ∷ peers) = elim (resolve_remote_peer host peer) [
    | none ↦ configure_peers host seen peers
    | some resolved ↦
        let endpoint = address_to_string resolved in
        elim (member endpoint seen) [
          | true ↦ configure_peers host seen peers
          | false ↦ resolved ∷ configure_peers host (endpoint ∷ seen) peers
        ]
  ]

  -- The transport that runs once its socket is bound, and its first greeting.
  unfoldable pub run_bound : UdpHost → Disk → ℕ → Transport → UdpTransport × List Action
  unfolding configure_peers refresh_skyrim_together_auto_config get_player_name
  run_bound host disk now t =
      let bound = record t {
        has_socket = true;
        broadcast = record { s_addr = 0xFFFFFFFF; port = t.config.local_port };
        configured_peers = configure_peers host [] t.config.remote_peers;
        instance_id = host.instance_id;
      } in
      let u =
        refresh_skyrim_together_auto_config host disk now true
          (record { transport = bound; last_refresh = 0 }) in
      let running = record (u.transport) { running = true } in
      (record u { transport = running }, send_hello running (get_player_name host))

  -- The transport, the result and what is sent.
  unfoldable pub start_udp :
      UdpHost → Disk → ℕ → Config → Bool → UdpTransport → UdpTransport × Bool × List Action
  unfolding run_bound
  start_udp host disk now config has_handler u =
      if u.transport.running
      then (u, true, [])
      else if not config.network_enabled || not has_handler
      then (u, false, [])
      else let t = record (u.transport) {
        config = config;
        shared_secret = config.shared_secret;
        has_socket = not host.wsa_starts && u.transport.has_socket;
      } in
        if not host.wsa_starts || not host.makes_socket || not host.binds
        then (record { transport = t; last_refresh = 0 }, false, [])
        else let (started, sent) = run_bound host disk now t in (started, true, sent)

  -- A round of `MaintenanceLoop`.
  unfoldable pub maintain : UdpHost → Disk → ℕ → UdpTransport → UdpTransport × List Action
  unfolding refresh_skyrim_together_auto_config get_player_name
  maintain host disk now u =
      let refreshed = refresh_skyrim_together_auto_config host disk now false u in
      (
        record refreshed { transport = expire_peers refreshed.transport now },
        send_hello refreshed.transport (get_player_name host),
      )
