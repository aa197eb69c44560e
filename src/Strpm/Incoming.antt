-- ===== src/Strpm/Incoming.antt =====
-- `OnMessage`, `QueueRemoteApply`, `ApplyRemoteOnGameThread`, `OnProxyMapping`,
-- `HandleProxyMappingOnGameThread` and `Reset` of src/STRPMAdapter.cpp. A task is a value that the
-- callbacks give, and that the game's thread runs later; where the game has no task interface, there
-- is none.
pub mod Latest
pub mod Received
use iedsync_together.Prelude.{
  ℕ, ◌≡◌, Bool, true, false, not, ◌&&◌, ◌||◌, List, [], ◌++◌, Option, none, some, ltb, ◌==◌,
  if◌then◌else◌, length, ◌>>=◌,
}
use iedsync_together.Text.{Bytes, is_empty}
use iedsync_together.Text.Number.{Fmt}
use iedsync_together.Dict.{lookup, insert, erase, nat_eq}
use iedsync_together.LocalIedState.{Floats, LocalIedState, decode_local_ied_state}
use iedsync_together.Scene.{or_empty}
use iedsync_together.Renderer.{Renderer}
use iedsync_together.Renderer.Calls.{Call}
use iedsync_together.Renderer.Apply.{Stage, Outcome, apply, clear_proxy, reset_renderer}
use iedsync_together.Strpm.{max_payload_bytes, clear_state}
use iedsync_together.Strpm.Loading.{RemoteSnapshot, FullAdapter, Resolver, is_running}

-- `STRPM::Message`, the data as bytes or null.
pub record Message : Type 0 where
  pub payload : Option Bytes
  pub sender_id : ℕ
  pub sender_name : Option Bytes
  pub sequence : ℕ

pub data MappingType : Type 0 where
  added : MappingType
  updated : MappingType
  removed : MappingType
  cleared : MappingType

-- `STRPM::ProxyMappingEvent`.
pub record MappingEvent : Type 0 where
  pub type : MappingType
  pub connection_id : ℕ
  pub old_form_id : ℕ
  pub new_form_id : ℕ

pub data Task : Type 0 where
  apply_task : ℕ → Bool → Task
  mapping_task : MappingEvent → Task
  reset_task : Task

abbrev pub add_task : Bool → Task → Option Task
add_task has_tasks task = if has_tasks then some task else none

unfoldable pub queue_remote_apply : Bool → ℕ → Bool → Option Task
queue_remote_apply has_tasks connection force =
    if connection == 0 then none else add_task has_tasks (apply_task connection force)

module _ ⦃fl : Floats⦄ where
  -- The sender is this adapter itself, as far as both ids are known.
  unfoldable pub is_own : FullAdapter → Message → Bool
  is_own e message =
      not (message.sender_id == 0)
      && not (e.local_connection_id == 0)
      && message.sender_id == e.local_connection_id

  -- What the guards of `OnMessage` let pass: the snapshot that it stores for the sender.
  unfoldable pub accept : FullAdapter → Message → Option RemoteSnapshot
  unfolding is_own
  accept e message =
      if not (is_running e)
      then none
      else (message.payload >>= λ payload.
          if is_empty payload || ltb max_payload_bytes (length payload) || is_own e message
          then none
          else (decode_local_ied_state payload >>= λ state.
              if message.sender_id == 0
              then none
              else some (record {
                state = state;
                display_name = or_empty message.sender_name;
                sequence = message.sequence;
              })))

  unfoldable pub on_message : Bool → FullAdapter → Message → FullAdapter × Option Task
  unfolding accept queue_remote_apply
  on_message has_tasks e message = elim (accept e message) [
    | none ↦ (e, none)
    | some snapshot ↦ (
      record e { remote_states = insert message.sender_id snapshot e.remote_states },
      queue_remote_apply has_tasks message.sender_id false,
    )
  ]

  unfoldable pub on_proxy_mapping : Bool → FullAdapter → Option MappingEvent → Option Task
  on_proxy_mapping has_tasks e none = none
  on_proxy_mapping has_tasks e (some event) =
      if not (is_running e) then none else add_task has_tasks (mapping_task event)

  -- `Reset`, and the task that it adds.
  unfoldable pub reset_adapter : Bool → FullAdapter → FullAdapter × Option Task
  reset_adapter has_tasks e = (
    record e { outgoing = clear_state e.outgoing; remote_states = [] },
    add_task has_tasks reset_task,
  )

-- The tasks. `resolve` is that of the service's resolver: the proxy of a connection if it gives `kOk`.
module _ ⦃f : Fmt⦄ ⦃fl : Floats⦄ (stage : Stage) (resolve : ℕ → Option ℕ) where
  -- The snapshot and the proxy that `ApplyRemoteOnGameThread` shows, if it does.
  unfoldable pub remote_to_show : FullAdapter → ℕ → Option (RemoteSnapshot × ℕ)
  remote_to_show e connection =
      if not (is_running e)
      then none
      else (e.resolver >>= λ resolver. lookup connection e.remote_states >>= λ snapshot.
          resolve connection >>= λ proxy. if proxy == 0 then none else some (snapshot, proxy))

  -- The renderer afterwards, and the script calls.
  unfoldable pub apply_remote : FullAdapter → Renderer → ℕ → Bool → Renderer × List Call
  unfolding remote_to_show
  apply_remote e r connection force = elim (remote_to_show e connection) [
    | none ↦ (r, [])
    | some (snapshot, proxy) ↦
        let shown = apply stage r connection proxy snapshot.display_name snapshot.state force in
        (shown.renderer, shown.calls)
  ]

  -- The adapter and the renderer afterwards, and the script calls.
  pub record Handled : Type 0 where
    pub adapter : FullAdapter
    pub renderer : Renderer
    pub calls : List Call

  unfoldable pub handle_mapping : FullAdapter → Renderer → MappingEvent → MappingType → Handled
  unfolding apply_remote
  handle_mapping e r event added =
      let (r1, calls) = apply_remote e r event.connection_id true in
      record { adapter = e; renderer = r1; calls = calls }
  handle_mapping e r event updated =
      let (r1, calls) =
        if not (event.old_form_id == 0) && not (event.old_form_id == event.new_form_id)
        then clear_proxy stage r event.old_form_id
        else (r, []) in
      let (r2, more) = apply_remote e r1 event.connection_id true in
      record { adapter = e; renderer = r2; calls = calls ++ more }
  handle_mapping e r event removed =
      let (r1, calls) = clear_proxy stage r event.old_form_id in
      record {
        adapter = record e { remote_states = erase event.connection_id e.remote_states };
        renderer = r1;
        calls = calls;
      }
  handle_mapping e r event cleared =
      let (r1, calls) = reset_renderer stage r in
      record { adapter = record e { remote_states = [] }; renderer = r1; calls = calls }

  unfoldable pub run_task : FullAdapter → Renderer → Task → Handled
  unfolding handle_mapping apply_remote
  run_task e r (apply_task connection force) =
      let (r1, calls) = apply_remote e r connection force in
      record { adapter = e; renderer = r1; calls = calls }
  run_task e r (mapping_task event) =
      if not (is_running e)
      then record { adapter = e; renderer = r; calls = [] }
      else handle_mapping e r event event.type
  run_task e r reset_task =
      let (r1, calls) = reset_renderer stage r in
      record { adapter = e; renderer = r1; calls = calls }
