-- ===== src/Config/Load/Bounds.antt =====
-- The bounds of the settings that `Config::Load` gives.
use iedsync_together.Prelude.{
  ℕ, ◌+◌, ◌≤◌, ◌<◌, ◌≡◌, false, ◌||◌, List, [], ◌∷◌, Option, none, some, leb, ltb, ◌==◌,
  if◌then◌else◌, length, length-append, is_some, Every, Every-append, arith, Bool-cases,
  Option-cases, inl, inr, subst, some_inj, take,
}
use iedsync_together.Text.{Bytes, codes, find, is_empty, rfind, substr}
use iedsync_together.Text.Number.{Fmt, stoul}
use iedsync_together.Dict.{member, bytes_eq}
use iedsync_together.Config.{RemotePeer, Config}
use iedsync_together.Config.Load.{
  network, Ini, clamp, clamp_port, trim, host_peer, parse_remote_peer, items_of, peer_text,
  take_item, take_items, parse_remote_peers, has_peer, add_legacy, load_main, load_relay_host, load,
}

abbrev pub IsPort : ℕ → Type 0
IsPort port = (0 < port) × (port ≤ 65535)

-- A peer that can be resolved: a host that is no empty text and has no bar, and a port.
pub record IsPeer (peer : RemotePeer) : Type 0 where
  pub host_ne_nil : is_empty peer.host ≡ false
  pub no_bar : is_some (find peer.host (codes "|")) ≡ false
  pub port_ok : IsPort peer.port

clamp_port-IsPort : (value fallback : ℕ) → IsPort fallback → IsPort (clamp_port value fallback)
unfolding clamp_port
clamp_port-IsPort value fallback (p, q) = (ground arith, ground arith)

clamp_le :
    (value low high : ℕ) → low ≤ high → (low ≤ clamp value low high) × (clamp value low high ≤ high)
unfolding clamp
clamp_le value low high h = (ground arith, ground arith)

host_peer-IsPeer :
    (value : Bytes) (port : ℕ) {peer : RemotePeer}
    → IsPort port
    → host_peer value port ≡ some peer
    → IsPeer peer
unfolding host_peer
host_peer-IsPeer value port {peer} p e =
    elim (Bool-cases (is_empty (trim value) || is_some (find (trim value) (codes "|")))) [
      | inl refused ↦ cc (rw refused at e)
      | inr good ↦ subst IsPeer (some_inj (rw good at e)) (record {
        host_ne_nil = ground (arith, good);
        no_bar = ground (arith, good);
        port_ok = p;
      })
    ]

parse_remote_peer-IsPeer :
    (text : Bytes) (default_port : ℕ) {peer : RemotePeer}
    → IsPort default_port
    → parse_remote_peer text default_port ≡ some peer
    → IsPeer peer
unfolding parse_remote_peer
parse_remote_peer-IsPeer text default_port p e = elim (Bool-cases (is_empty (trim text))) [
  | inl nothing ↦ cc (rw nothing at e)
  | inr something ↦ elim (Option-cases (rfind (trim text) (codes ":"))) [
    | inl alone ↦ host_peer-IsPeer (trim text) default_port p (rw (something, alone) at e)
    | inr (separator, found) ↦ with_port (trim text) separator (rw (something, found) at e)
  ]
]
  where
    with_port :
        (value : Bytes) (separator : ℕ) {peer : RemotePeer}
        → (elim (stoul 10 (trim (substr value (separator + 1)))) [
          | none ↦ none
          | some parsed ↦
              if parsed == 0 || ltb 65535 parsed
              then none
              else host_peer (take separator value) parsed
        ])
          ≡ some peer
        → IsPeer peer
    with_port value separator e =
        elim (Option-cases (stoul 10 (trim (substr value (separator + 1))))) [
          | inl failed ↦ cc (rw failed at e)
          | inr (parsed, read) ↦ elim (Bool-cases (parsed == 0 || ltb 65535 parsed)) [
            | inl outside ↦ cc (rw (read, outside) at e)
            | inr inside ↦
                host_peer-IsPeer (take separator value) parsed
                  (ground (arith, inside), ground (arith, inside)) (rw (read, inside) at e)
          ]
        ]

module _ ⦃f : Fmt⦄ (default_port : ℕ) (p : IsPort default_port) where
  -- At most this many peers, each of which can be resolved.
  abbrev ArePeers : ℕ → List RemotePeer → Type 0
  ArePeers limit peers = (length peers ≤ limit) × Every IsPeer peers

  take_item-ArePeers :
      (item : Bytes) (seen : List Bytes) (peers : List RemotePeer)
      → ArePeers 63 peers
      → ArePeers 64 (take_item default_port item (seen, peers)).1
  unfolding take_item
  take_item-ArePeers item seen peers (n, h) =
      elim (Option-cases (parse_remote_peer item default_port)) [
        | inl nothing ↦ rw (take_item, nothing) (omega arith, h)
        | inr (peer, parsed) ↦ elim (Bool-cases (member (peer_text peer) seen)) [
          | inl known ↦ rw (take_item, parsed, known) (omega arith, h)
          | inr new ↦
              rw (take_item, parsed, new)
                (
                  omega (arith, length-append peers (peer ∷ [])),
                  Every-append IsPeer peers (peer ∷ []) h
                      (parse_remote_peer-IsPeer item default_port p parsed, tt),
                )
        ]
      ]

  take_items-ArePeers :
      (items seen : List Bytes) (peers : List RemotePeer)
      → ArePeers 63 peers
      → ArePeers 64 (take_items default_port items (seen, peers))
  unfolding take_items
  take_items-ArePeers [] seen peers (n, h) = (omega arith, h)
  take_items-ArePeers (item ∷ items) seen peers h =
      let taken = take_item default_port item (seen, peers) in
      let (n, all) = take_item-ArePeers item seen peers h in
      elim (Bool-cases (leb 64 (length taken.1))) [
        | inl full ↦ rw full (n, all)
        | inr room ↦ rw room (take_items-ArePeers items taken.0 taken.1 (ground (arith, room), all))
      ]

  legacy-ArePeers :
      (text : Bytes) (peers : List RemotePeer)
      → ArePeers 64 peers
      → ArePeers 65 (add_legacy (parse_remote_peer text default_port) peers)
  unfolding add_legacy
  legacy-ArePeers text peers (n, h) = elim (Option-cases (parse_remote_peer text default_port)) [
    | inl nothing ↦ rw nothing (omega arith, h)
    | inr (peer, parsed) ↦ elim (Bool-cases (has_peer peer peers)) [
      | inl known ↦ rw (parsed, known) (omega arith, h)
      | inr new ↦
          rw (parsed, new)
            (
              omega (arith, length-append peers (peer ∷ [])),
              Every-append IsPeer peers (peer ∷ []) h
                  (parse_remote_peer-IsPeer text default_port p parsed, tt),
            )
    ]
  ]

-- The settings that the program computes with.
pub record IsConfig (config : Config) : Type 0 where
  pub local_port_ok : IsPort config.local_port
  pub peer_port_ok : IsPort config.peer_port
  pub auto_remote_port_ok : IsPort config.auto_remote_port
  pub capture_ok : (250 ≤ config.capture_interval_ms) × (config.capture_interval_ms ≤ 30000)
  pub resend_ok : (1000 ≤ config.resend_interval_ms) × (config.resend_interval_ms ≤ 60000)
  pub discovery_ok : (250 ≤ config.discovery_interval_ms) × (config.discovery_interval_ms ≤ 30000)
  pub timeout_ok : (2000 ≤ config.peer_timeout_ms) × (config.peer_timeout_ms ≤ 120000)
  pub peers_ok : (length config.remote_peers ≤ 65) × Every IsPeer config.remote_peers

load_main-IsConfig : ⦃f : Fmt⦄ → (ini : Ini) → IsConfig (load_main ini)
unfolding load_main parse_remote_peers
load_main-IsConfig ini =
    let local =
      clamp_port-IsPort (ini.int network (codes "LocalPort") 38471) 38471
        (omega arith, omega arith) in
    let peer = clamp_port-IsPort (ini.int network (codes "PeerPort") _) _ local in
    record {
      local_port_ok = local;
      peer_port_ok = peer;
      auto_remote_port_ok = clamp_port-IsPort _ _ local;
      capture_ok = clamp_le _ 250 30000 (omega arith);
      resend_ok = clamp_le _ 1000 60000 (omega arith);
      discovery_ok = clamp_le _ 250 30000 (omega arith);
      timeout_ok = clamp_le _ 2000 120000 (omega arith);
      peers_ok = legacy-ArePeers _ peer (ini.text network (codes "PeerHost") []) _ (
          take_items-ArePeers _ peer (items_of (ini.text network (codes "RemotePeers") [])) [] []
            (omega arith, tt));
    }

-- Whatever the files hold, and whether the second is there or not, every port is from 1 to 65535, the
-- intervals and the timeout are within their bounds, and there are at most 65 remote peers, each with
-- a host that is not empty and has no bar, and with a port.
pub load-IsConfig :
    ⦃f : Fmt⦄ → (ini : Ini) (relay_host : Option Ini) → IsConfig (load ini relay_host)
unfolding load load_relay_host
load-IsConfig ini none = load_main-IsConfig ini
load-IsConfig ini (some host) =
    let v = load_main-IsConfig ini in
    record {
      local_port_ok = clamp_port-IsPort _ _ v.local_port_ok;
      peer_port_ok = v.peer_port_ok;
      auto_remote_port_ok = clamp_port-IsPort _ _ v.auto_remote_port_ok;
      capture_ok = v.capture_ok;
      resend_ok = v.resend_ok;
      discovery_ok = v.discovery_ok;
      timeout_ok = v.timeout_ok;
      peers_ok = v.peers_ok;
    }
