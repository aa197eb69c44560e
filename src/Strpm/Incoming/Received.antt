-- ===== src/Strpm/Incoming/Received.antt =====
-- A state from one adapter of src/STRPMAdapter.cpp to another, and to the proxy there.
use iedsync_together.Prelude.{
  ℕ, ◌≤◌, ◌≡◌, ◌≢◌, refl, Bool, true, false, not, ◌&&◌, Option, none, some, ltb, ◌==◌,
  if◌then◌else◌, length, arith,
}
use iedsync_together.Text.{Bytes, is_empty}
use iedsync_together.Text.Number.{Fmt}
use iedsync_together.Dict.{lookup, insert, lookup-insert_self, nat_eq}
use iedsync_together.LocalIedState.{Floats, LocalIedState, encode_local_ied_state}
use iedsync_together.LocalIedState.RoundTrip.{
  IsLocalIedState, round_state, decode_local_ied_state-encode,
}
use iedsync_together.Renderer.{Renderer}
use iedsync_together.Renderer.Apply.{Stage, apply}
use iedsync_together.Strpm.{max_payload_bytes}
use iedsync_together.Strpm.Loading.{RemoteSnapshot, FullAdapter, Resolver, is_running}
use iedsync_together.Strpm.Incoming.{
  Message, apply_task, is_own, accept, on_message, queue_remote_apply, remote_to_show, apply_remote,
  run_task,
}

differs : {m n : ℕ} → m ≢ n → (m == n) ≡ false
differs {m} {n} ne = ground (arith, ne)

not_larger : {m n : ℕ} → m ≤ n → ltb n m ≡ false
not_larger h = ground (arith, h)

not_own : {A : Type 0} (b : Bool) {x : Option A} → (if not b && false then none else x) ≡ x
not_own true = refl
not_own false = refl

module _ ⦃f : Fmt⦄ ⦃fl : Floats⦄ where
  -- The message with the text of a state, from a known sender.
  abbrev pub state_message : ℕ → Bytes → ℕ → LocalIedState → Message
  state_message sender name sequence state = record {
    payload = some (encode_local_ied_state state);
    sender_id = sender;
    sender_name = some name;
    sequence = sequence;
  }

  encode_local_ied_state-full :
      (state : LocalIedState) → is_empty (encode_local_ied_state state) ≡ false
  unfolding encode_local_ied_state
  encode_local_ied_state-full state = refl

  accept-encode :
      (e : FullAdapter) (sender sequence : ℕ) (name : Bytes) (state : LocalIedState)
      → is_running e ≡ true
      → sender ≢ 0
      → sender ≢ e.local_connection_id
      → IsLocalIedState state
      → length (encode_local_ied_state state) ≤ max_payload_bytes
      → accept e (state_message sender name sequence state)
        ≡ some (record { state = round_state state; display_name = name; sequence = sequence })
  unfolding accept is_own
  accept-encode e sender sequence name state running known other v fits =
      rw
        (
          running,
          encode_local_ied_state-full state,
          not_larger fits,
          is_own,
          differs known,
          differs other,
          decode_local_ied_state-encode state v,
        )
        (not_own (e.local_connection_id == 0))

  -- The snapshot of the state that was sent.
  abbrev pub sent_snapshot : ℕ → Bytes → LocalIedState → RemoteSnapshot
  sent_snapshot sequence name state = record {
    state = round_state state;
    display_name = name;
    sequence = sequence;
  }

  on_message-encode :
      (e : FullAdapter) (sender sequence : ℕ) (name : Bytes) (state : LocalIedState)
      → sender ≢ 0
      → accept e (state_message sender name sequence state)
        ≡ some (sent_snapshot sequence name state)
      → on_message true e (state_message sender name sequence state) ≡ (
        record e {
          remote_states = insert sender (sent_snapshot sequence name state) e.remote_states;
        },
        some (apply_task sender false),
      )
  unfolding on_message queue_remote_apply
  on_message-encode e sender sequence name state known accepted =
      rw (on_message, accepted, differs known)

  remote_to_show-some :
      (stage : Stage) (resolve : ℕ → Option ℕ) (e : FullAdapter) (sender proxy : ℕ)
      (resolver : Resolver) (snapshot : RemoteSnapshot)
      → is_running e ≡ true
      → e.resolver ≡ some resolver
      → lookup sender e.remote_states ≡ some snapshot
      → resolve sender ≡ some proxy
      → proxy ≢ 0
      → remote_to_show stage resolve e sender ≡ some (snapshot, proxy)
  unfolding remote_to_show
  remote_to_show-some stage resolve e sender proxy resolver snapshot running has_resolver stored
        resolved valid =
      rw (running, has_resolver, stored, resolved, differs valid)

  pub received_shown :
      (stage : Stage) (resolve : ℕ → Option ℕ) (e : FullAdapter) (r : Renderer)
      (sender sequence proxy : ℕ) (name : Bytes) (state : LocalIedState) (resolver : Resolver)
      → is_running e ≡ true
      → sender ≢ 0
      → sender ≢ e.local_connection_id
      → IsLocalIedState state
      → length (encode_local_ied_state state) ≤ max_payload_bytes
      → e.resolver ≡ some resolver
      → resolve sender ≡ some proxy
      → proxy ≢ 0
      → let kept = (on_message true e (state_message sender name sequence state)).0 in
        let shown = apply stage r sender proxy name (round_state state) false in
        let handled = run_task stage resolve kept r (apply_task sender false) in
        ((on_message true e (state_message sender name sequence state)).1
          ≡ some (apply_task sender false))
        × (lookup sender kept.remote_states
            ≡ some (record { state = round_state state; display_name = name; sequence = sequence }))
        × (handled.renderer ≡ shown.renderer)
        × (handled.calls ≡ shown.calls)
  unfolding run_task apply_remote
  received_shown stage resolve e r sender sequence proxy name state resolver running known other v
        fits has_resolver resolved valid =
      let stored = lookup-insert_self sender (sent_snapshot sequence name state) e.remote_states in
      let kept = record e {
        remote_states = insert sender (sent_snapshot sequence name state) e.remote_states;
      } in
      let target =
        remote_to_show-some stage resolve kept sender proxy resolver
          (sent_snapshot sequence name state) running has_resolver stored resolved valid in
      rw
        (
          on_message-encode e sender sequence name state known
              (accept-encode e sender sequence name state running known other v fits),
          apply_remote,
          target,
        )
        (refl, stored, refl, refl)
