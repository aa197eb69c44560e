-- ===== src/Strpm/Incoming/Latest.antt =====
-- What the table of remote states of src/STRPMAdapter.cpp stands for: of each connection, the latest
-- snapshot, as a function.
use std.Path.{fun_ext}
use iedsync_together.Prelude.{
  ℕ, ◌≡◌, refl, ap, sym, ◌∙◌, Bool, true, false, not, ◌&&◌, ◌||◌, List, [], ◌∷◌, Option, none, some,
  ltb, leb, ◌==◌, if◌then◌else◌, length, ◌>>=◌, arith, Bool-cases, Option-cases, inl, inr,
}
use iedsync_together.Text.{Bytes, is_empty}
use iedsync_together.Text.Number.{Fmt}
use iedsync_together.Dict.{lookup, insert, erase, lookup-insert, lookup-erase, nat_eq}
use iedsync_together.LocalIedState.{Floats, decode_local_ied_state}
use iedsync_together.Scene.{or_empty}
use iedsync_together.Renderer.{Renderer}
use iedsync_together.Renderer.Apply.{Stage}
use iedsync_together.Strpm.{max_payload_bytes, Adapter, begin_send, stop_adapter, clear_state}
use iedsync_together.Strpm.Loading.{
  RemoteSnapshot, FullAdapter, SendHost, refreshed_id, is_running, begin_try_send, try_send,
  stop_endpoint,
}
use iedsync_together.Strpm.Incoming.{
  Message, MappingEvent, MappingType, added, updated, removed, cleared, mapping_task, is_own,
  accept, on_message, handle_mapping, run_task, reset_adapter,
}

pub data Event : Type 0 where
  messages : Message → Event
  sends : SendHost → Bytes → Event
  maps : MappingEvent → Event
  resets : Event
  stops : Event

if_true : {A : Type 0} {b : Bool} (x y : A) → b ≡ true → (if b then x else y) ≡ x
if_true x y h = rw h

if_false : {A : Type 0} {b : Bool} (x y : A) → b ≡ false → (if b then x else y) ≡ y
if_false x y h = rw h

module _ ⦃f : Fmt⦄ ⦃fl : Floats⦄ where
  -- The adapter after an event. What the renderer does has no part in it.
  unfoldable pub after_event : Stage → (ℕ → Option ℕ) → Renderer → FullAdapter → Event → FullAdapter
  after_event stage resolve r e (messages message) = (on_message true e message).0
  after_event stage resolve r e (sends host payload) = (try_send host e payload).0
  after_event stage resolve r e (maps event) =
      (run_task stage resolve e r (mapping_task event)).adapter
  after_event stage resolve r e resets = (reset_adapter true e).0
  after_event stage resolve r e stops = stop_endpoint e

  -- The renderer at each event is arbitrary.
  unfoldable pub after_events :
      Stage → (ℕ → Option ℕ) → FullAdapter → List (Renderer × Event) → FullAdapter
  after_events stage resolve e [] = e
  after_events stage resolve e ((r, event) ∷ events) =
      after_events stage resolve (after_event stage resolve r e event) events

module _ ⦃fl : Floats⦄ where
  -- The abstract adapter: whether it runs and can send, its id, and the latest snapshot of each connection.
  pub record View : Type 0 where
    pub running : Bool
    pub can_send : Bool
    pub own : ℕ
    pub latest : ℕ → Option RemoteSnapshot

  abbrev pub view : FullAdapter → View
  view e = record {
    running = is_running e;
    can_send = e.outgoing.has_send;
    own = e.local_connection_id;
    latest = λ c. lookup c e.remote_states;
  }

  abbrev pub nothing_known : ℕ → Option RemoteSnapshot
  nothing_known c = none

  abbrev pub update_at :
      ℕ → Option RemoteSnapshot → (ℕ → Option RemoteSnapshot) → ℕ → Option RemoteSnapshot
  update_at sender snapshot latest c = if sender == c then snapshot else latest c

  -- A message counts if it is not empty, fits, can be read, and is from another known connection.
  unfoldable pub counts : ℕ → Message → Option RemoteSnapshot
  counts own message = message.payload >>= λ payload. decode_local_ied_state payload >>= λ state.
      if leb 1 (length payload)
        && leb (length payload) max_payload_bytes
        && not (message.sender_id == 0)
        && not (message.sender_id == own)
      then some (record {
        state = state;
        display_name = or_empty message.sender_name;
        sequence = message.sequence;
      })
      else none

  abbrev pub take_message : View → Message → Option RemoteSnapshot → View
  take_message v message none = v
  take_message v message (some snapshot) = record v {
    latest = update_at message.sender_id (some snapshot) v.latest;
  }

  abbrev pub take_mapping : View → MappingEvent → MappingType → View
  take_mapping v event added = v
  take_mapping v event updated = v
  take_mapping v event removed = record v { latest = update_at event.connection_id none v.latest }
  take_mapping v event cleared = record v { latest = nothing_known }

  -- A stopped adapter only lets itself be reset.
  unfoldable pub spec_event : View → Event → View
  spec_event v (messages message) =
      if v.running then take_message v message (counts v.own message) else v
  spec_event v (sends host payload) =
      if v.running && v.can_send && leb 1 (length payload) && leb (length payload) max_payload_bytes
      then record v { own = refreshed_id host.local_id v.own }
      else v
  spec_event v (maps event) = if v.running then take_mapping v event event.type else v
  spec_event v resets = record v { latest = nothing_known }
  spec_event v stops =
      if v.running
      then record { running = false; can_send = false; own = 0; latest = nothing_known }
      else v

  unfoldable pub spec_events : View → List (Renderer × Event) → View
  spec_events v [] = v
  spec_events v ((r, event) ∷ events) = spec_events (spec_event v event) events

  same_guards :
      {A : Type 0} (sender own : ℕ) (payload : Bytes) (read : Option A) (k : A → RemoteSnapshot)
      → (if is_empty payload
            || ltb max_payload_bytes (length payload)
            || (not (sender == 0) && not (own == 0) && sender == own)
          then none
          else (read >>= λ state. if sender == 0 then none else some (k state)))
        ≡ (read >>= λ state.
            if leb 1 (length payload)
              && leb (length payload) max_payload_bytes
              && not (sender == 0)
              && not (sender == own)
            then some (k state)
            else none)
  same_guards sender own [] none k = refl
  same_guards sender own [] (some state) k = refl
  same_guards sender own (c ∷ cs) none k = ground arith
  same_guards sender own (c ∷ cs) (some state) k = ground arith

  accept-counts :
      (e : FullAdapter) (message : Message)
      → is_running e ≡ true
      → accept e message ≡ counts e.local_connection_id message
  unfolding accept counts is_own
  accept-counts e message running = elim (Option-cases message.payload) [
    | inl null ↦ rw (running, null)
    | inr (payload, given) ↦
        rw (running, given)
          (same_guards message.sender_id e.local_connection_id payload
            (decode_local_ied_state payload) _)
  ]

  accept_stopped :
      (e : FullAdapter) (message : Message) → is_running e ≡ false → accept e message ≡ none
  unfolding accept
  accept_stopped e message stopped = rw stopped

  -- The views of two adapters agree if the parts do.
  view_eq :
      (v : View) (known : ℕ → Option RemoteSnapshot)
      → ((c : ℕ) → v.latest c ≡ known c)
      → v ≡ record v { latest = known }
  view_eq v known h = ap (λ k. record v { latest = k }) (fun_ext h)

  on_message-accept :
      (e : FullAdapter) (message : Message) (accepted : Option RemoteSnapshot)
      → accept e message ≡ accepted
      → (on_message true e message).0 ≡ elim accepted [
        | none ↦ e
        | some snapshot ↦ record e {
          remote_states = insert message.sender_id snapshot e.remote_states;
        }
      ]
  unfolding on_message
  on_message-accept e message none h = rw (on_message, h)
  on_message-accept e message (some snapshot) h = rw (on_message, h)

  take_message-view :
      (e : FullAdapter) (message : Message) (counted : Option RemoteSnapshot)
      → view (elim counted [
        | none ↦ e
        | some snapshot ↦ record e {
          remote_states = insert message.sender_id snapshot e.remote_states;
        }
      ])
        ≡ take_message (view e) message counted
  take_message-view e message none = refl
  take_message-view e message (some snapshot) =
      view_eq
        (view (record e { remote_states = insert message.sender_id snapshot e.remote_states })) _
        (λ c. lookup-insert message.sender_id c snapshot e.remote_states)

  message-view :
      (e : FullAdapter) (message : Message)
      → view (on_message true e message).0 ≡ spec_event (view e) (messages message)
  unfolding spec_event
  message-view e message = elim (Bool-cases (is_running e)) [
    | inr stopped ↦
        ap view (on_message-accept e message none (accept_stopped e message stopped))
        ∙ sym (if_false _ _ stopped)
    | inl running ↦
        ap view (on_message-accept e message _ (accept-counts e message running))
        ∙ take_message-view e message (counts e.local_connection_id message)
        ∙ sym (if_true _ _ running)
  ]

  begin_send-fits :
      (a : Adapter) (payload : Bytes)
      → begin_send a payload ≡ (
          if a.running
            && a.has_send
            && leb 1 (length payload)
            && leb (length payload) max_payload_bytes
          then some payload
          else none)
  unfolding begin_send
  begin_send-fits a [] = ground arith
  begin_send-fits a (c ∷ cs) = ground arith

  sends-view :
      (host : SendHost) (e : FullAdapter) (payload : Bytes)
      → view (try_send host e payload).0 ≡ spec_event (view e) (sends host payload)
  unfolding spec_event try_send begin_try_send
  sends-view host e payload =
      ap (λ o. view (begin_try_send host e o).0) (begin_send-fits e.outgoing payload)
      ∙ chosen (
          is_running e
          && e.outgoing.has_send
          && leb 1 (length payload)
          && leb (length payload) max_payload_bytes)
    where
      chosen :
          (b : Bool)
          → view (begin_try_send host e (if b then some payload else none)).0 ≡ (
              if b
              then record (view e) { own = refreshed_id host.local_id e.local_connection_id }
              else view e)
      chosen true = refl
      chosen false = refl

  erase-view :
      (e : FullAdapter) (connection : ℕ)
      → view (record e { remote_states = erase connection e.remote_states })
        ≡ record (view e) { latest = update_at connection none (view e).latest }
  erase-view e connection =
      view_eq (view (record e { remote_states = erase connection e.remote_states })) _
        (λ c. lookup-erase connection c e.remote_states)

  clear-view :
      (e : FullAdapter)
      → view (record e { remote_states = [] }) ≡ record (view e) { latest = nothing_known }
  clear-view e = view_eq (view (record e { remote_states = [] })) _ (λ c. unfold lookup in refl)

module _ ⦃f : Fmt⦄ ⦃fl : Floats⦄ (stage : Stage) (resolve : ℕ → Option ℕ) where
  handle-view :
      (e : FullAdapter) (r : Renderer) (event : MappingEvent) (type : MappingType)
      → view (handle_mapping stage resolve e r event type).adapter
        ≡ take_mapping (view e) event type
  unfolding handle_mapping
  handle-view e r event added = refl
  handle-view e r event updated = refl
  handle-view e r event removed = erase-view e event.connection_id
  handle-view e r event cleared = clear-view e

  mapping-running :
      (e : FullAdapter) (r : Renderer) (event : MappingEvent)
      → is_running e ≡ true
      → (run_task stage resolve e r (mapping_task event)).adapter
        ≡ (handle_mapping stage resolve e r event event.type).adapter
  unfolding run_task
  mapping-running e r event running = rw running

  mapping-stopped :
      (e : FullAdapter) (r : Renderer) (event : MappingEvent)
      → is_running e ≡ false
      → (run_task stage resolve e r (mapping_task event)).adapter ≡ e
  unfolding run_task
  mapping-stopped e r event stopped = rw stopped

  stop-running :
      (e : FullAdapter)
      → is_running e ≡ true
      → view (stop_endpoint e)
        ≡ record { running = false; can_send = false; own = 0; latest = nothing_known }
  unfolding stop_endpoint stop_adapter
  stop-running e running = rw (stop_endpoint, running) (view_eq _ _ (λ c. unfold lookup in refl))

  stop-stopped : (e : FullAdapter) → is_running e ≡ false → stop_endpoint e ≡ e
  unfolding stop_endpoint
  stop-stopped e stopped = rw (stop_endpoint, stopped)

  event-view :
      (r : Renderer) (e : FullAdapter) (event : Event)
      → view (after_event stage resolve r e event) ≡ spec_event (view e) event
  unfolding after_event spec_event
  event-view r e (messages message) = message-view e message
  event-view r e (sends host payload) = sends-view host e payload
  event-view r e (maps event) = elim (Bool-cases (is_running e)) [
    | inl running ↦
        ap view (mapping-running e r event running)
        ∙ handle-view e r event event.type
        ∙ sym (if_true _ _ running)
    | inr stopped ↦ ap view (mapping-stopped e r event stopped) ∙ sym (if_false _ _ stopped)
  ]
  event-view r e resets =
      unfold reset_adapter clear_state in view_eq _ _ (λ c. unfold lookup in refl)
  event-view r e stops = elim (Bool-cases (is_running e)) [
    | inl running ↦ stop-running e running ∙ sym (if_true _ _ running)
    | inr stopped ↦ ap view (stop-stopped e stopped) ∙ sym (if_false _ _ stopped)
  ]

  -- The table of remote states implements a function: after any messages, sends, mapping events,
  -- resets and stops, whatever the renderer does meanwhile, it holds of each connection the latest
  -- snapshot that counts, unless a removal of the connection, a clearing of the mappings, a reset or
  -- the stop came after it. A message of the adapter's own id does not count, and a send reads this
  -- id again. Once stopped, messages, sends and mapping events have no effect.
  pub after_events-spec_events :
      (e : FullAdapter) (events : List (Renderer × Event))
      → view (after_events stage resolve e events) ≡ spec_events (view e) events
  unfolding after_events spec_events
  after_events-spec_events e [] = refl
  after_events-spec_events e ((r, event) ∷ events) =
      after_events-spec_events (after_event stage resolve r e event) events
      ∙ ap (λ v. spec_events v events) (event-view r e event)
