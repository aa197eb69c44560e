-- ===== src/Config.antt =====
-- src/Config.h: the settings.
pub mod Load
use iedsync_together.Prelude.{ℕ, Bool, List}
use iedsync_together.Text.{Bytes}

pub data TransportMode : Type 0 where
  str auto udp : TransportMode

pub record RemotePeer : Type 0 where
  pub host : Bytes
  pub port : ℕ

pub record Config : Type 0 where
  pub network_enabled : Bool
  pub transport_mode : TransportMode
  pub udp_fallback : Bool
  pub require_str_bridge : Bool
  pub auto_discovery : Bool
  pub relay_mode : Bool
  pub auto_remote_from_str : Bool
  pub auto_shared_secret_from_str : Bool
  pub suppress_remote_npc_displays : Bool
  pub local_port : ℕ
  pub peer_port : ℕ
  pub auto_remote_port : ℕ
  pub capture_interval_ms : ℕ
  pub resend_interval_ms : ℕ
  pub discovery_interval_ms : ℕ
  pub peer_timeout_ms : ℕ
  pub peer_host : Bytes
  pub remote_peers : List RemotePeer
  pub shared_secret : Bytes
