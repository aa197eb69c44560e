-- ===== src/StrTransport.antt =====
-- src/StrTransport.h and src/StrTransport.cpp: the transport that sends gameplay packets by the plugin
-- message service. The service's library is a parameter, as for the adapter of the plugin messages,
-- with the query of its diagnostics.
pub mod Bridge
pub mod Arrival
use iedsync_together.Prelude.{
  ℕ, ◌≡◌, Bool, true, false, not, ◌&&◌, ◌||◌, [], ◌∷◌, ◌++◌, Option, none, some, ltb, ◌==◌,
  if◌then◌else◌, length, ◌>>=◌, is_some,
}
use iedsync_together.Text.{Bytes, codes, equal, is_empty}
use iedsync_together.Text.Number.{Fmt}
use iedsync_together.Config.{Config}
use iedsync_together.Packet.{read_field, sanitize_field, build_packet}
use iedsync_together.Strpm.{max_payload_bytes}
use iedsync_together.Strpm.Loading.{Library, Api, interface_version, read_local_id}
use iedsync_together.Strpm.Incoming.{Message}

abbrev pub diagnostics_version : ℕ
diagnostics_version = 2

pub data RuntimeBackend : Type 0 where
  no_backend : RuntimeBackend
  udp_backend : RuntimeBackend
  str_bridge : RuntimeBackend

-- The fields of `STRPM::RuntimeStatus` that the code tests.
pub record RuntimeStatus : Type 0 where
  pub version : ℕ
  pub active_backend : RuntimeBackend
  pub str_bridge_active : ℕ

-- `STRPM::DiagnosticsInterface`: `getRuntimeStatus`, if it is there, with the status that it gives if
-- it gives `kOk`.
pub record Diagnostics : Type 0 where
  pub version : ℕ
  pub runtime_status : Option (Option RuntimeStatus)

-- The members of the class, without the mutex of the sends; whether there is a handler.
pub record StrTransport : Type 0 where
  pub config : Config
  pub has_handler : Bool
  pub api : Option Api
  pub diagnostics : Option Diagnostics
  pub listener : ℕ
  pub local_connection_id : ℕ
  pub local_instance_id : Bytes
  pub running : Bool

-- What a call finds around it: the library, its query of the diagnostics as the library's other
-- queries are given, the player's name, if there is a player that has one, and the text of
-- `fmt::format("STRPM-{:08X}-{:016X}", ...)` of the process and the clock.
pub record Host : Type 0 where
  pub library : Library
  pub diagnostics_query : Option (Option Diagnostics)
  pub player_name : Option Bytes
  pub fresh_id : Bytes

unfoldable pub get_local_player_name : Host → Bytes
get_local_player_name host = elim host.player_name [
  | none ↦ codes "Player"
  | some name ↦ if is_empty name then codes "Player" else sanitize_field name
]

unfoldable pub load_diagnostics : Host → Option Diagnostics
load_diagnostics host = host.diagnostics_query >>= λ given. given >>= λ diagnostics.
    if not (diagnostics.version == diagnostics_version) || not (is_some diagnostics.runtime_status)
    then none
    else some diagnostics

-- `LoadApi`: `_api` and `_diagnostics` afterwards. `none` is the result `false`.
unfoldable pub load_str_api : Host → Option (Api × Option Diagnostics)
unfolding load_diagnostics
load_str_api host =
    if not host.library.is_loaded
    then none
    else (host.library.query >>= λ given. given >>= λ api.
        if not (api.version == interface_version) then none else some (api, load_diagnostics host))

unfoldable pub read_runtime_status : Option Diagnostics → Option RuntimeStatus
read_runtime_status diagnostics = diagnostics >>= λ loaded. loaded.runtime_status >>= λ given.
    given >>= λ status. if not (status.version == diagnostics_version) then none else some status

abbrev pub is_str_bridge : RuntimeBackend → Bool
is_str_bridge str_bridge = true
is_str_bridge _ = false

unfoldable pub validate_runtime_backend : Config → Option Diagnostics → Bool
unfolding read_runtime_status
validate_runtime_backend config diagnostics = elim (read_runtime_status diagnostics) [
  | none ↦ not config.require_str_bridge
  | some status ↦
      if not config.require_str_bridge
      then true
      else not (not (is_str_bridge status.active_backend) || status.str_bridge_active == 0)
]

module _ ⦃f : Fmt⦄ where
  -- The part of `Start` behind `LoadApi` and `ValidateRuntimeBackend`, on a transport that has taken
  -- the settings and the handler.
  unfoldable pub join_channel : Host → StrTransport → Api → Option Diagnostics → StrTransport × Bool
  join_channel host t api diagnostics =
      let id = read_local_id api t.local_connection_id in
      let instance_id = if not (id == 0) then f.dec id else host.fresh_id in
      elim api.registered [
        | none ↦ (
          record t {
            has_handler = false;
            api = none;
            diagnostics = diagnostics;
            local_connection_id = id;
            local_instance_id = instance_id;
          },
          false,
        )
        | some handle ↦ (
          record t {
            api = some api;
            diagnostics = diagnostics;
            listener = handle;
            local_connection_id = id;
            local_instance_id = instance_id;
            running = true;
          },
          true,
        )
      ]

  unfoldable pub start_str : Host → StrTransport → Config → Bool → StrTransport × Bool
  unfolding join_channel
  start_str host t config has_handler =
      if t.running
      then (t, true)
      else if not config.network_enabled || not has_handler
      then (t, false)
      else elim (load_str_api host) [
        | none ↦ (record t { config = config; has_handler = false }, false)
        | some (api, diagnostics) ↦
            if not (validate_runtime_backend config diagnostics)
            then (
              record t { config = config; has_handler = false; api = none; diagnostics = none },
              false,
            )
            else join_channel host (record t { config = config; has_handler = true }) api
                diagnostics
      ]

abbrev pub stopped_str : StrTransport → StrTransport
stopped_str t = record t {
  running = false;
  listener = 0;
  local_connection_id = 0;
  local_instance_id = [];
  diagnostics = none;
  api = none;
  has_handler = false;
}

-- `Stop`.
unfoldable pub stop_str : StrTransport → StrTransport
stop_str t = if not t.running then t else stopped_str t

abbrev pub can_send : Option Api → Bool
can_send none = false
can_send (some api) = api.has_send

-- The packet with which `send` is called, if it is.
unfoldable pub send_str_packet : Host → StrTransport → Bytes → Option Bytes
send_str_packet host t payload =
    if not t.running || not (can_send t.api) || is_empty payload
    then none
    else let packet = build_packet t.local_instance_id (get_local_player_name host) payload in
      if ltb max_payload_bytes (length packet) then none else some packet

-- The id in the packet is this transport's own.
unfoldable pub has_own_id : StrTransport → Bytes → Bool
has_own_id t packet = elim (read_field packet (codes "id")) [
  | none ↦ false
  | some id ↦ not (is_empty t.local_instance_id) && equal id t.local_instance_id
]

-- The packet that the handler is called with, if it is.
unfoldable pub receive_str : StrTransport → Message → Option Bytes
unfolding has_own_id
receive_str t message =
    if not t.running
    then none
    else (message.payload >>= λ packet.
        if is_empty packet || ltb max_payload_bytes (length packet)
        then none
        else if has_own_id t packet
        then none
        else if not (message.sender_id == 0)
            && not (t.local_connection_id == 0)
            && message.sender_id == t.local_connection_id
        then none
        else if t.has_handler
        then some packet
        else none)
