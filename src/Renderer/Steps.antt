-- ===== src/Renderer/Steps.antt =====
-- The renderer of src/RemoteIEDRenderer.cpp among its callers, which all run on the game's thread but
-- for the watchdog's own, which schedules ticks.
use iedsync_together.Prelude.{ℕ, ◌<◌, ◌≡◌, Bool, true, Option, if◌then◌else◌, is_some}
use iedsync_together.Text.{Bytes}
use iedsync_together.Text.Number.{Fmt}
use iedsync_together.Dict.{lookup, nat_eq}
use iedsync_together.Engine.{Actor}
use iedsync_together.LocalIedState.{Floats, LocalIedState}
use iedsync_together.Scene.{Arithmetic, Tree, Store}
use iedsync_together.Renderer.{Renderer, start_watchdog, schedule_watchdog_tick}
use iedsync_together.Renderer.Apply.{Stage, apply, clear_proxy, reset_renderer}
use iedsync_together.Renderer.Watchdog.{run_tick}

module _ ⦃f : Fmt⦄ ⦃fl : Floats⦄ ⦃fa : Arithmetic⦄ where
  pub data Step : Renderer → Renderer → Type 0 where
    starts : (r : Renderer) → Step r (start_watchdog r)
    applies :
        (stage : Stage) (r : Renderer) (connection proxy : ℕ) (name : Bytes) (state : LocalIedState)
        (force : Bool)
        → Step r (apply stage r connection proxy name state force).renderer
    clears : (stage : Stage) (r : Renderer) (proxy : ℕ) → Step r (clear_proxy stage r proxy).0
    resets : (stage : Stage) (r : Renderer) → Step r (reset_renderer stage r).0
    schedules : (has_tasks : Bool) (r : Renderer) → Step r (schedule_watchdog_tick has_tasks r)
    ticks :
        (stage : Stage) (get_3d : Actor → Option Tree) (r : Renderer) (store : Store)
        → 0 < r.queued_ticks
        → Step r (run_tick stage get_3d r store).0

  pub data Reaches : Renderer → Renderer → Type 0 where
    here : (r : Renderer) → Reaches r r
    next : {q r s : Renderer} → Reaches q r → Step r s → Reaches q s

module _ ⦃fl : Floats⦄ where
  -- Every proxy with a signature is tracked, and one tick is queued exactly while the mark is set.
  pub record IsRenderer (r : Renderer) : Type 0 where
    pub tracked :
        (p : ℕ)
        → is_some (lookup p r.applied_signatures) ≡ true
        → is_some (lookup p r.tracked_proxies) ≡ true
    pub one_tick : r.queued_ticks ≡ (if r.watchdog_task_queued then 1 else 0)
