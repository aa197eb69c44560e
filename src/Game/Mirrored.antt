-- ===== src/Game/Mirrored.antt =====
-- A display from the scene of one game to the proxy in another, through src/LocalCaptureProbe.cpp,
-- src/LocalIEDState.cpp, src/STRPMAdapter.cpp and src/RemoteIEDRenderer.cpp.
use iedsync_together.Prelude.{
  ℕ, ◌≤◌, ◌≡◌, ◌≢◌, true, false, not, ◌||◌, Option, none, some, ltb, length, arith, Every, ap, sym,
  some_inj, if-every,
}
use iedsync_together.Text.{Bytes, equal, is_empty}
use iedsync_together.Text.Number.{Fmt}
use iedsync_together.Dict.{lookup, nat_eq}
use iedsync_together.FormIdentity.Slots.{SlotState, slot_count}
use iedsync_together.FormIdentity.Slots.RoundTrip.{IsSlot}
use iedsync_together.LocalIedState.{Floats, LocalIedState, encode_local_ied_state}
use iedsync_together.LocalIedState.RoundTrip.{round_state}
use iedsync_together.Scene.{Arithmetic}
use iedsync_together.Renderer.{Renderer}
use iedsync_together.Renderer.Apply.{Stage, apply}
use iedsync_together.Strpm.{max_payload_bytes, Adapter, publish, begin_send}
use iedsync_together.Strpm.Loading.{
  FullAdapter, Resolver, SendHost, Send, is_running, begin_try_send, publish_endpoint,
}
use iedsync_together.Strpm.Incoming.{Message, apply_task, on_message, run_task}
use iedsync_together.Strpm.Incoming.Received.{received_shown}
use iedsync_together.CaptureProbe.{Surroundings, Sorter, Probe, gather_state, complete_capture}
use iedsync_together.CaptureProbe.Sendable.{AreSurroundings, gather_state-IsLocalIedState}
use iedsync_together.Game.{Game, publish_state, end_capture}

abbrev pub message_of : Bytes → ℕ → Bytes → ℕ → Message
message_of payload sender name sequence = record {
  payload = some payload;
  sender_id = sender;
  sender_name = some name;
  sequence = sequence;
}

begin_send-payload :
    (a : Adapter) (payload : Bytes) {sent : Bytes}
    → begin_send a payload ≡ some sent
    → (sent ≡ payload) × (ltb max_payload_bytes (length payload) ≡ false)
unfolding begin_send
begin_send-payload a payload {sent} =
    if-every
      (λ o. o ≡ some sent → (sent ≡ payload) × (ltb max_payload_bytes (length payload) ≡ false))
      (not a.running
        || not a.has_send
        || is_empty payload
        || ltb max_payload_bytes (length payload))
      none (some payload) (λ closed e. cc) (λ ready e. (sym (some_inj e), ground (arith, ready)))

publish-payload :
    (a : Adapter) (payload : Bytes) {sent : Bytes}
    → (publish a payload).1 ≡ some sent
    → (sent ≡ payload) × (length payload ≤ max_payload_bytes)
unfolding publish
publish-payload a payload {sent} =
    if-every
      (λ (o : Adapter × Option Bytes).
        o.1 ≡ some sent → (sent ≡ payload) × (length payload ≤ max_payload_bytes))
      (is_empty payload || ltb max_payload_bytes (length payload)) _ _ (λ dropped e. cc)
      (λ goes e. let (same, fits) = begin_send-payload _ payload e in (same, ground (arith, fits)))

module _ ⦃fl : Floats⦄ where
  begin_try_send-payload :
      (host : SendHost) (e : FullAdapter) (begun : Option Bytes) {sent : Send}
      → (begin_try_send host e begun).1 ≡ some sent
      → begun ≡ some sent.payload
  unfolding begin_try_send
  begin_try_send-payload host e none h = cc
  begin_try_send-payload host e (some payload) h = ap (λ (s : Send). some s.payload) (some_inj h)

  publish_endpoint-payload :
      (host : SendHost) (e : FullAdapter) (payload : Bytes) {sent : Send}
      → (publish_endpoint host e payload).1 ≡ some sent
      → (sent.payload ≡ payload) × (length payload ≤ max_payload_bytes)
  unfolding publish_endpoint
  publish_endpoint-payload host e payload h =
      publish-payload e.outgoing payload (begin_try_send-payload host _ _ h)

module _ ⦃f : Fmt⦄ ⦃fl : Floats⦄ ⦃fa : Arithmetic⦄ ⦃order : Sorter⦄ where
  -- The text of the state that a capture gathers.
  abbrev gathered : Surroundings → SlotState → Bytes
  gathered around slots = encode_local_ied_state (gather_state around slots)

  end_capture-sent :
      (around : Surroundings) (host : SendHost) (game : Game) (slots : SlotState) {sent : Send}
      → (end_capture around host game slots).1 ≡ some sent
      → (sent.payload ≡ gathered around slots)
        × (length (gathered around slots) ≤ max_payload_bytes)
  unfolding end_capture complete_capture publish_state
  end_capture-sent around host game slots {sent} =
      if-every
        (λ (c : Probe × Option (LocalIedState × Bytes)).
          (publish_state host game.adapter c.1).1 ≡ some sent → Sent)
        (not (equal (gathered around slots) game.probe.last_payload)) _ _
        (λ changed.
          if-every
            (λ (p : Option (LocalIedState × Bytes)).
              (publish_state host game.adapter p).1 ≡ some sent → Sent)
            game.probe.has_handler (some (gather_state around slots, gathered around slots)) none
            (λ handled. publish_endpoint-payload host game.adapter (gathered around slots))
            (λ unhandled e. cc))
        (λ same e. cc)
    where
      Sent : Type 0
      Sent =
          (sent.payload ≡ gathered around slots)
          × (length (gathered around slots) ≤ max_payload_bytes)

  -- The state that a capture gathers in one game, as it is sent when the capture ends, arrives in
  -- another: its running adapter, whose own id is another, keeps exactly that state, with the numbers
  -- of its objects rounded to six decimals, under the sender's id, and the task that it queues shows
  -- it on the sender's proxy, once the proxy is known.
  pub end_capture_mirrored :
      (around : Surroundings) (host : SendHost) (game : Game) (slots : SlotState) (stage : Stage)
      (resolve : ℕ → Option ℕ) (e : FullAdapter) (r : Renderer) (sender sequence proxy : ℕ)
      (name : Bytes) (resolver : Resolver) {sent : Send}
      → (end_capture around host game slots).1 ≡ some sent
      → AreSurroundings around
      → length slots ≡ slot_count
      → Every IsSlot slots
      → is_running e ≡ true
      → sender ≢ 0
      → sender ≢ e.local_connection_id
      → e.resolver ≡ some resolver
      → resolve sender ≡ some proxy
      → proxy ≢ 0
      → let state = round_state (gather_state around slots) in
        let (kept, task) = on_message true e (message_of sent.payload sender name sequence) in
        let shown = apply stage r sender proxy name state false in
        let handled = run_task stage resolve kept r (apply_task sender false) in
        (task ≡ some (apply_task sender false))
        × (lookup sender kept.remote_states
            ≡ some (record { state = state; display_name = name; sequence = sequence }))
        × (handled.renderer ≡ shown.renderer)
        × (handled.calls ≡ shown.calls)
  end_capture_mirrored around host game slots stage resolve e r sender sequence proxy name resolver
        {sent} ends v n vs running known other has_resolver resolved valid =
      let (same, fits) = end_capture-sent around host game slots ends in
      rw same (
        received_shown stage resolve e r sender sequence proxy name (gather_state around slots)
          resolver running known other (gather_state-IsLocalIedState around slots v n vs).0 fits
          has_resolver resolved valid)
