-- ===== src/Game.antt =====
-- src/main.cpp: what the plugin does when the game has loaded its data and before it loads a save, and
-- the slot override that it offers to other plugins. The capture's handler is `Publish` of the adapter
-- of the plugin messages.
pub mod Mirrored
use iedsync_together.Prelude.{ℕ, Bool, true, false, Option, none, some, List}
use iedsync_together.Text.{Bytes}
use iedsync_together.Text.Number.{Fmt}
use iedsync_together.FormIdentity.Slots.{SlotState}
use iedsync_together.LocalIedState.{Floats, LocalIedState}
use iedsync_together.Scene.{Arithmetic}
use iedsync_together.Renderer.{Renderer, start_watchdog}
use iedsync_together.Strpm.Loading.{
  FullAdapter, Library, SendHost, Send, start_adapter, publish_endpoint,
}
use iedsync_together.Strpm.Incoming.{Task, reset_adapter}
use iedsync_together.CaptureProbe.{
  Surroundings, Sorter, Probe, start_probe, reset_probe, set_state_changed_handler,
  complete_capture,
}

-- The three singletons that the plugin wires together.
pub record Game ⦃fl : Floats⦄ : Type 0 where
  pub renderer : Renderer
  pub adapter : FullAdapter
  pub probe : Probe

pub data SkseMessage : Type 0 where
  data_loaded : SkseMessage
  pre_load_game : SkseMessage
  other_message : SkseMessage

module _ ⦃fl : Floats⦄ where
  -- `OnSKSEMessage`: the game, and the task that `Reset` of the adapter adds.
  unfoldable pub on_skse_message : Library → Bool → Game → SkseMessage → Game × Option Task
  on_skse_message library has_tasks game data_loaded = (
    record game {
      renderer = start_watchdog game.renderer;
      adapter = (start_adapter library game.adapter).0;
      probe = start_probe (set_state_changed_handler game.probe);
    },
    none,
  )
  on_skse_message library has_tasks game pre_load_game =
      let (adapter, task) = reset_adapter has_tasks game.adapter in
      (record game { adapter = adapter; probe = reset_probe game.probe }, task)
  on_skse_message library has_tasks game other_message = (game, none)

  -- The handler of the capture: the adapter, and the send that begins.
  unfoldable pub publish_state :
      SendHost → FullAdapter → Option (LocalIedState × Bytes) → FullAdapter × Option Send
  publish_state host adapter none = (adapter, none)
  publish_state host adapter (some (state, payload)) = publish_endpoint host adapter payload

module _ ⦃f : Fmt⦄ ⦃fl : Floats⦄ ⦃fa : Arithmetic⦄ ⦃order : Sorter⦄ where
  -- The end of a capture, with its handler.
  unfoldable pub end_capture : Surroundings → SendHost → Game → SlotState → Game × Option Send
  unfolding publish_state
  end_capture around host game slots =
      let (probe, published) = complete_capture around game.probe slots in
      let (adapter, sent) = publish_state host game.adapter published in
      (record game { probe = probe; adapter = adapter }, sent)

-- `IEDST_QuerySlotOverride`: what it writes if it is given a place for it, and `kNotRemote`.
unfoldable pub query_slot_override : Bool → Option ℕ × ℕ
query_slot_override has_place = elim has_place [ true ↦ (some 0, 0) | false ↦ (none, 0) ]
