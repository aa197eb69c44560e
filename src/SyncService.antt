-- ===== src/SyncService.antt =====
-- src/SyncService.h and src/SyncService.cpp: the slots of the local player, which are captured and
-- sent, and the snapshots of the remote players. A call on the game's thread is one step: the world,
-- the time and whether the transports run are its arguments, and what it sends and which actors it
-- blocks its results. Times are milliseconds of the steady clock.
pub mod Capture
pub mod Remote
pub mod Proxies
pub mod Query
use iedsync_together.Prelude.{
  ℕ, zero, suc, ◌+◌, ◌%◌, ◌^◌, ◌≡◌, refl, Bool, true, false, not, ◌&&◌, ◌||◌, List, [], ◌∷◌, ◌++◌,
  Option, none, some, ◌==◌, if◌then◌else◌,
}
use iedsync_together.Text.{Bytes}
use iedsync_together.FormIdentity.Slots.{SlotState, no_slots}
use iedsync_together.IedBridge.{BlockCall}

pub record Snapshot : Type 0 where
  pub slots : SlotState
  pub revision : ℕ
  pub character_name : Bytes
  pub last_proxy : ℕ

-- `RemoteSnapshot{}`.
abbrev pub empty_snapshot : Snapshot
empty_snapshot = record { slots = no_slots; revision = 0; character_name = []; last_proxy = 0 }

-- The members of the class that its handlers read and write. The settings are the two that they use.
pub record Service : Type 0 where
  pub resend_interval_ms : ℕ
  pub suppress : Bool
  pub running : Bool
  pub capture_pending : Bool
  pub local_slots : SlotState
  pub has_local_slots : Bool
  pub revision : ℕ
  pub last_send : ℕ
  pub snapshots : List (Bytes × Snapshot)
  pub blocked : List ℕ

-- What a handler does to its surroundings.
pub data Effect : Type 0 where
  send_str : Bytes → Effect
  send_udp : Bytes → Effect
  block : BlockCall → Effect
