-- ===== src/Tests/Games.antt =====
-- Two games: a capture in one, its arrival in another, and the transports between them.
use iedsync_together.Prelude.{
  Every, ℕ, ◌≤◌, ◌≡◌, refl, true, false, List, [], ◌∷◌, Option, none, some, if◌then◌else◌, arith,
}
use iedsync_together.Text.{Bytes, codes, starts_with, find, equal}
use iedsync_together.Text.Split.{join}
use iedsync_together.Dict.{lookup, member, nat_eq, bytes_eq}
use iedsync_together.FormIdentity.Hex.{hex_encode, hex_value}
use iedsync_together.FormIdentity.Slots.{encode_slots, encode_slot}
use iedsync_together.FormIdentity.Forms.{make_form_identity, resolve_form_identity}
use iedsync_together.LocalIedState.{
  encode_local_ied_state, encode_objects, encode_object, object_fields, slot_code, as_int,
  print_int,
}
use iedsync_together.LocalIedState.RoundTrip.{IsLocalIedState, round_state}
use iedsync_together.Scene.{parse_ied_object_form_id}
use iedsync_together.Renderer.{Renderer, new_renderer}
use iedsync_together.Renderer.Apply.{apply}
use iedsync_together.Strpm.{publish, begin_send}
use iedsync_together.Strpm.Loading.{Api, SendHost, publish_endpoint, begin_try_send}
use iedsync_together.Strpm.Incoming.{Message, apply_task, on_message, run_task, removed}
use iedsync_together.Strpm.Incoming.Received.{state_message}
use iedsync_together.Strpm.Incoming.Latest.{
  Event, messages, sends, maps, after_events, view, spec_events, after_events-spec_events,
}
use iedsync_together.CaptureProbe.{
  gather_state, complete_capture, captured_object, make_captured_object, identity_or_none,
  find_slot, slotted_form, quantize, visit_ied_objects, unique_objects,
}
use iedsync_together.CaptureProbe.Sendable.{IsIdentified, gather_state-IsLocalIedState}
use iedsync_together.CaptureProbe.Published.{
  complete_captures, changes, last_of, complete_captures-changes,
}
use iedsync_together.Game.{Game, end_capture, publish_state}
use iedsync_together.Game.Mirrored.{message_of, end_capture_mirrored}
use iedsync_together.Config.{Config}
use iedsync_together.Packet.{build_packet, state_payload, sanitize_field}
use iedsync_together.SyncService.Remote.{proxy_id, snapshot_of, restart, handle_packet}
use iedsync_together.SyncService.Remote.Delivery.{IsSendable}
use iedsync_together.StrTransport.{
  StrTransport, Host, RuntimeStatus, str_bridge, get_local_player_name, start_str, send_str_packet,
  receive_str,
}
use iedsync_together.StrTransport.Bridge.{IsStrTransport, start_str-IsStrTransport}
use iedsync_together.StrTransport.Arrival.{update_of, is_taken_for_own, send_str_packet-delivered}
use iedsync_together.Tests.Printing.{numerals}
use iedsync_together.Tests.Data.{config, world, service, worn, worn-IsSlot}
use iedsync_together.Tests.Scenery.{
  whole, counting, by_number, displays, accepting, bytes_ok, stage, resolver, adapter, probe,
  scenery, scenery-AreSurroundings,
}

abbrev proxy : ℕ
proxy = 0xFF000010

abbrev resolve : ℕ → Option ℕ
resolve connection = some proxy

-- The shield of Ann arrives, and then the mapping of her proxy is removed.
abbrev send_host : SendHost
send_host = record { local_id = some (some 8); has_set_name = true; player_name = codes "Ann" }

abbrev history : List (Renderer × Event)
history =
    (new_renderer, messages (state_message 5 (codes "Ann") 1 displays))
    ∷ (new_renderer, sends send_host (codes "x"))
    ∷ (
      new_renderer,
      maps (record { type = removed; connection_id = 5; old_form_id = proxy; new_form_id = 0 }),
    )
    ∷ []

after_events-spec_events_example :
    view (after_events (stage accepting) resolve (adapter 9) history)
    ≡ spec_events (view (adapter 9)) history
after_events-spec_events_example =
    after_events-spec_events (stage accepting) resolve (adapter 9) history

gather_state-IsLocalIedState_example :
    IsLocalIedState (gather_state scenery worn)
    × Every (IsIdentified scenery) (gather_state scenery worn).objects
gather_state-IsLocalIedState_example =
    gather_state-IsLocalIedState scenery worn scenery-AreSurroundings refl worn-IsSlot

complete_captures-changes_example :
    ((complete_captures probe ((scenery, worn) ∷ (scenery, worn) ∷ [])).1
      ≡ changes [] ((scenery, worn) ∷ (scenery, worn) ∷ []))
    × ((complete_captures probe ((scenery, worn) ∷ (scenery, worn) ∷ [])).0.last_payload
        ≡ last_of [] ((scenery, worn) ∷ (scenery, worn) ∷ []))
complete_captures-changes_example =
    complete_captures-changes probe ((scenery, worn) ∷ (scenery, worn) ∷ []) refl

-- The capture gathers the shield as it is shown.
gathers : gather_state scenery worn ≡ displays
unfolding gather_state captured_object make_captured_object identity_or_none find_slot slotted_form
    quantize visit_ied_objects unique_objects member make_form_identity resolve_form_identity
    parse_ied_object_form_id starts_with find hex_value
gathers = refl

abbrev game : Game
game = record { renderer = new_renderer; adapter = adapter 5; probe = probe }

captured :
    (end_capture scenery send_host game worn).1
    ≡ some (record { display_name = some (codes "Ann"); payload = encode_local_ied_state displays })
unfolding end_capture publish_state complete_capture
captured = rw gathers (
    unfold publish_state publish_endpoint begin_try_send publish begin_send equal
      encode_local_ied_state encode_objects encode_object object_fields slot_code as_int print_int
      encode_slots encode_slot hex_encode join in
    refl)

end_capture_mirrored_example :
    let state = round_state (gather_state scenery worn) in
    let message = message_of (encode_local_ied_state displays) 5 (codes "Ann") 1 in
    let kept = (on_message true (adapter 9) message).0 in
    let shown = apply (stage accepting) new_renderer 5 proxy (codes "Ann") state false in
    let handled = run_task (stage accepting) resolve kept new_renderer (apply_task 5 false) in
    ((on_message true (adapter 9) message).1 ≡ some (apply_task 5 false))
    × (lookup 5 kept.remote_states
        ≡ some (record { state = state; display_name = codes "Ann"; sequence = 1 }))
    × (handled.renderer ≡ shown.renderer)
    × (handled.calls ≡ shown.calls)
end_capture_mirrored_example =
    end_capture_mirrored scenery send_host game worn (stage accepting) resolve (adapter 9)
      new_renderer 5 1 proxy (codes "Ann") resolver captured scenery-AreSurroundings refl
      worn-IsSlot refl (λ e. ground arith) (λ e. ground arith) refl refl (λ e. ground arith)

-- The service's library, with an active bridge to the server.
abbrev api : Api
api = record { version = 2; has_send = true; local_id = some (some 7); registered = some 1 }

abbrev status : RuntimeStatus
status = record { version = 2; active_backend = str_bridge; str_bridge_active = 1 }

abbrev host : Host
host = record {
  library = record { is_loaded = true; query = some (some api); resolver_query = none };
  diagnostics_query = some (some (record { version = 2; runtime_status = some (some status) }));
  player_name = some (codes "Ann");
  fresh_id = codes "STRPM-1-2";
}

abbrev idle : StrTransport
idle = record {
  config = config false;
  has_handler = false;
  api = none;
  diagnostics = none;
  listener = 0;
  local_connection_id = 0;
  local_instance_id = [];
  running = false;
}

idle-IsStrTransport : IsStrTransport idle
idle-IsStrTransport = record {
  with_api = refl;
  with_handler = refl;
  with_bridge = λ runs required. absurd (never runs);
}
  where
    never : false ≡ true → ⊥
    never e = cc

abbrev bridged : Config
bridged = record (config false) { require_str_bridge = true }

start_str-IsStrTransport_example :
    IsStrTransport (start_str host idle bridged true).0
    × ((start_str host idle bridged true).1 ≡ (start_str host idle bridged true).0.running)
start_str-IsStrTransport_example =
    start_str-IsStrTransport host idle bridged true idle-IsStrTransport

abbrev joined_as : ℕ → StrTransport
joined_as id = record idle {
  has_handler = true;
  api = some api;
  listener = 1;
  local_connection_id = id;
  local_instance_id = numerals.dec id;
  running = true;
}

abbrev packet : Bytes
packet = build_packet (codes "7") (codes "Ann") (state_payload 3 worn)

sends_packet : send_str_packet host (joined_as 7) (state_payload 3 worn) ≡ some packet
unfolding send_str_packet get_local_player_name sanitize_field build_packet state_payload
    encode_slots encode_slot hex_encode
sends_packet = refl

abbrev arriving : Message
arriving = record { payload = some packet; sender_id = 7; sender_name = none; sequence = 1 }

ann_state-IsSendable : IsSendable (update_of host (joined_as 7) 3 worn)
unfolding get_local_player_name sanitize_field
ann_state-IsSendable = record {
  id_plain = (refl, tt);
  id_ne_nil = λ e. cc;
  name_bytes = bytes_ok (codes "Ann") refl;
  name_ne_nil = λ e. cc;
  slots_ok = (refl, worn-IsSlot);
  revision_le = omega arith;
}

is_fresh :
    (restart
      (update_of host (joined_as 7) 3 worn)
      (snapshot_of (codes "7") service.snapshots)).revision
    ≤ 3
unfolding restart snapshot_of lookup equal get_local_player_name sanitize_field
is_fresh = omega arith

send_str_packet-delivered_example :
    (receive_str (joined_as 8) arriving
      ≡ (if is_taken_for_own (joined_as 8) (codes "7") arriving then none else some packet))
    × (lookup (codes "7") (handle_packet world service packet).snapshots
        ≡ some (record {
          slots = worn;
          revision = 3;
          character_name = get_local_player_name host;
          last_proxy = proxy_id world (get_local_player_name host);
        }))
send_str_packet-delivered_example =
    send_str_packet-delivered host (joined_as 7) (joined_as 8) arriving 3 worn world service
      sends_packet ann_state-IsSendable refl refl refl is_fresh
