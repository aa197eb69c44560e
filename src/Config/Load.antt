-- ===== src/Config/Load.antt =====
-- src/Config.cpp: the settings as they are read from the INI files. `GetPrivateProfileIntW` and
-- `GetPrivateProfileStringW` are functions of the section, the key and the fallback; of a string the
-- bytes in UTF-8. The second file is there or not.
pub mod Bounds
use iedsync_together.Prelude.{
  ℕ, ◌+◌, ◌≡◌, refl, Bool, true, false, not, ◌&&◌, ◌||◌, List, [], ◌∷◌, ◌++◌, Option, none, some,
  leb, ltb, ◌==◌, if◌then◌else◌, length, take, map, is_some, ◌>>=◌,
}
use iedsync_together.Text.{Bytes, codes, equal, find, is_empty, rfind, substr}
use iedsync_together.Text.Number.{Fmt, is_space, stoul}
use iedsync_together.Dict.{member, bytes_eq}
use iedsync_together.ProxyResolver.{to_lower, equals_insensitive}
use iedsync_together.Config.{TransportMode, str, auto, udp, RemotePeer, Config}

pub record Ini : Type 0 where
  pub int : Bytes → Bytes → ℕ → ℕ
  pub text : Bytes → Bytes → Bytes → Bytes

unfoldable pub read_bool : Ini → Bytes → Bytes → Bool → Bool
read_bool ini section key fallback = not (ini.int section key (if fallback then 1 else 0) == 0)

unfoldable pub clamp : ℕ → ℕ → ℕ → ℕ
clamp value low high =
    let below = if ltb high value then high else value in if ltb low below then below else low

unfoldable pub clamp_port : ℕ → ℕ → ℕ
clamp_port value fallback = if ltb 0 value && leb value 65535 then value else fallback

trim_start : Bytes → Bytes
trim_start [] = []
trim_start (c ∷ cs) = let rest = trim_start cs in if is_space c then rest else c ∷ cs

trim_end : Bytes → Bytes
trim_end [] = []
trim_end (c ∷ cs) = let rest = trim_end cs in if is_space c && is_empty rest then [] else c ∷ rest

unfoldable pub trim : Bytes → Bytes
unfolding trim_start trim_end
trim value = trim_end (trim_start value)

unfoldable pub parse_transport_mode : Bytes → TransportMode
parse_transport_mode value =
    let lower = map to_lower (trim value) in
    if equal lower (codes "auto")
    then auto
    else if equal lower (codes "udp") || equal lower (codes "legacyudp")
    then udp
    else str

-- The last part of `ParseRemotePeer`: the host is what is left.
unfoldable pub host_peer : Bytes → ℕ → Option RemotePeer
host_peer value port =
    let host = trim value in
    if is_empty host || is_some (find host (codes "|"))
    then none
    else some (record { host = host; port = port })

unfoldable pub parse_remote_peer : Bytes → ℕ → Option RemotePeer
parse_remote_peer text default_port =
    let value = trim text in
    if is_empty value then none else elim (rfind value (codes ":")) [
      | none ↦ host_peer value default_port
      | some separator ↦ elim (stoul 10 (trim (substr value (separator + 1)))) [
        | none ↦ none
        | some parsed ↦
            if parsed == 0 || ltb 65535 parsed
            then none
            else host_peer (take separator value) parsed
      ]
    ]

-- The pieces of the list between `,` and `;`.
onto_first : ℕ → List Bytes → List Bytes
onto_first c [] = (c ∷ []) ∷ []
onto_first c (item ∷ items) = (c ∷ item) ∷ items

unfoldable pub items_of : Bytes → List Bytes
unfolding onto_first
items_of [] = [] ∷ []
items_of (c ∷ cs) =
    let rest = items_of cs in if c == b',' || c == b';' then [] ∷ rest else onto_first c rest

module _ ⦃f : Fmt⦄ where
  unfoldable pub peer_text : RemotePeer → Bytes
  peer_text peer = map to_lower peer.host ++ (codes ":" ++ f.dec peer.port)

  -- What the loop holds after an item: the keys that were seen and the peers.
  unfoldable pub take_item : ℕ → Bytes → List Bytes × List RemotePeer → List Bytes × List RemotePeer
  take_item default_port item (seen, peers) = elim (parse_remote_peer item default_port) [
    | none ↦ (seen, peers)
    | some peer ↦
        if member (peer_text peer) seen
        then (seen, peers)
        else (peer_text peer ∷ seen, peers ++ (peer ∷ []))
  ]

  unfoldable pub take_items : ℕ → List Bytes → List Bytes × List RemotePeer → List RemotePeer
  take_items default_port [] (seen, peers) = peers
  take_items default_port (item ∷ items) (seen, peers) =
      let taken = take_item default_port item (seen, peers) in
      let all = take_items default_port items taken in
      if leb 64 (length taken.1) then taken.1 else all

  unfoldable pub parse_remote_peers : Bytes → ℕ → List RemotePeer
  parse_remote_peers value default_port = take_items default_port (items_of value) ([], [])

unfoldable pub has_peer : RemotePeer → List RemotePeer → Bool
has_peer peer [] = false
has_peer peer (other ∷ others) =
    (equals_insensitive other.host peer.host && other.port == peer.port) || has_peer peer others

unfoldable pub add_legacy : Option RemotePeer → List RemotePeer → List RemotePeer
add_legacy none peers = peers
add_legacy (some peer) peers = if has_peer peer peers then peers else peers ++ (peer ∷ [])

abbrev pub network : Bytes
network = codes "Network"

-- The first file.
unfoldable pub load_main : ⦃f : Fmt⦄ → Ini → Config
load_main ⦃f⦄ ini =
    let local_port = clamp_port (ini.int network (codes "LocalPort") 38471) 38471 in
    let peer_port = clamp_port (ini.int network (codes "PeerPort") local_port) local_port in
    let peer_host = ini.text network (codes "PeerHost") [] in
    record {
      network_enabled =
          read_bool ini network (codes "Enabled") true
          && not (read_bool ini network (codes "Disabled") false);
      transport_mode = parse_transport_mode (ini.text network (codes "Transport") (codes "STR"));
      udp_fallback = read_bool ini network (codes "UdpFallback") false;
      require_str_bridge = read_bool ini network (codes "RequireStrBridge") true;
      auto_discovery = read_bool ini network (codes "AutoDiscovery") true;
      relay_mode = read_bool ini network (codes "RelayMode") false;
      auto_remote_from_str = read_bool ini network (codes "AutoRemoteFromSTR") true;
      auto_shared_secret_from_str = read_bool ini network (codes "AutoSharedSecretFromSTR") false;
      suppress_remote_npc_displays =
          read_bool ini (codes "Compatibility") (codes "SuppressRemoteNpcDisplays") false;
      local_port = local_port;
      peer_port = peer_port;
      auto_remote_port =
          clamp_port (ini.int network (codes "AutoRemotePort") local_port) local_port;
      capture_interval_ms =
          clamp (ini.int (codes "Timing") (codes "CaptureIntervalMs") 750) 250 30000;
      resend_interval_ms =
          clamp (ini.int (codes "Timing") (codes "ResendIntervalMs") 5000) 1000 60000;
      discovery_interval_ms = clamp (ini.int network (codes "DiscoveryIntervalMs") 2000) 250 30000;
      peer_timeout_ms = clamp (ini.int network (codes "PeerTimeoutMs") 10000) 2000 120000;
      peer_host = peer_host;
      remote_peers =
          add_legacy (parse_remote_peer peer_host peer_port)
            (parse_remote_peers (ini.text network (codes "RemotePeers") []) peer_port);
      shared_secret = ini.text network (codes "SharedSecret") [];
    }

-- The second file, of a relay's host, over the first.
unfoldable pub load_relay_host : Ini → Config → Config
load_relay_host ini config =
    let transport = trim (ini.text network (codes "Transport") []) in
    let secret = ini.text network (codes "SharedSecret") [] in
    record config {
      transport_mode =
          if is_empty transport then config.transport_mode else parse_transport_mode transport;
      udp_fallback = read_bool ini network (codes "UdpFallback") config.udp_fallback;
      require_str_bridge =
          read_bool ini network (codes "RequireStrBridge") config.require_str_bridge;
      auto_discovery = read_bool ini network (codes "AutoDiscovery") config.auto_discovery;
      relay_mode = read_bool ini network (codes "RelayMode") config.relay_mode;
      auto_remote_from_str =
          read_bool ini network (codes "AutoRemoteFromSTR") config.auto_remote_from_str;
      auto_shared_secret_from_str =
          read_bool ini network (codes "AutoSharedSecretFromSTR")
            config.auto_shared_secret_from_str;
      local_port =
          clamp_port (ini.int network (codes "LocalPort") config.local_port) config.local_port;
      auto_remote_port =
          clamp_port (ini.int network (codes "AutoRemotePort") config.auto_remote_port)
            config.auto_remote_port;
      shared_secret = if is_empty secret then config.shared_secret else secret;
    }

unfoldable pub load : ⦃f : Fmt⦄ → Ini → Option Ini → Config
load ⦃f⦄ ini none = load_main ini
load ⦃f⦄ ini (some relay_host) = load_relay_host relay_host (load_main ini)
