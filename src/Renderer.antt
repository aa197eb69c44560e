-- ===== src/Renderer.antt =====
-- src/RemoteIEDRenderer.h and src/RemoteIEDRenderer.cpp: the displays of remote players, set up on
-- their proxies by calls of Papyrus functions, and the watchdog that keeps the transforms of the
-- displayed objects. `Nodes` chooses the nodes, `Calls` makes the script calls, `Apply` has the
-- operations on the proxies and `Watchdog` the correction of the transforms.
pub mod Nodes
pub mod Calls
pub mod Apply
pub mod Watchdog
pub mod Steps
use iedsync_together.Prelude.{
  ℕ, ◌+◌, Bool, true, false, List, [], Option, none, ◌>>=◌, if◌then◌else◌,
}
use iedsync_together.Text.{Bytes}
use iedsync_together.Engine.{Engine, Actor}
use iedsync_together.LocalIedState.{Floats, CapturedIedObject}

module _ ⦃fl : Floats⦄ where
  pub record TrackedRemoteObject : Type 0 where
    pub item_name : Bytes
    pub kind : Bytes
    pub slot_index : Option ℕ
    pub remote_form_id : ℕ
    pub expected_attachment : Bytes
    pub captured : CapturedIedObject
    pub acquired : Bool
    pub corrections : ℕ

  pub record TrackedProxyState : Type 0 where
    pub connection_id : ℕ
    pub display_name : Bytes
    pub objects : List TrackedRemoteObject

  -- The members of the class; whether the watchdog's thread was started; and how many ticks of the
  -- watchdog wait in the task queue of the game.
  pub record Renderer : Type 0 where
    pub applied_signatures : List (ℕ × Bytes)
    pub tracked_proxies : List (ℕ × TrackedProxyState)
    pub watchdog_task_queued : Bool
    pub watchdog_started : Bool
    pub queued_ticks : ℕ

  unfoldable pub new_renderer : Renderer
  new_renderer = record {
    applied_signatures = [];
    tracked_proxies = [];
    watchdog_task_queued = false;
    watchdog_started = false;
    queued_ticks = 0;
  }

  -- `Start`.
  unfoldable pub start_watchdog : Renderer → Renderer
  start_watchdog r = record r { watchdog_started = true }

  -- `ScheduleWatchdogTick`, with whether the game has a task interface.
  unfoldable pub schedule_watchdog_tick : Bool → Renderer → Renderer
  schedule_watchdog_tick has_tasks r =
      if r.watchdog_task_queued
      then r
      else if has_tasks
      then record r { watchdog_task_queued = true; queued_ticks = r.queued_ticks + 1 }
      else record r { watchdog_task_queued = false }
