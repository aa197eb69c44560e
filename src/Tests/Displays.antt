-- ===== src/Tests/Displays.antt =====
-- The displays: their text, the renderer, the adapter's table and the probe, on the small scene.
use iedsync_together.Prelude.{ℕ, ◌≡◌, refl, true, false, ◌&&◌, [], ◌∷◌, some, ◌==◌, Every, Lacks}
use iedsync_together.Text.{codes}
use iedsync_together.Text.Split.{split_from, split_fuel, split, join}
use iedsync_together.Text.Split.Joined.{split_ends}
use iedsync_together.Dict.{lookup, nat_eq}
use iedsync_together.LocalIedState.{encode_local_ied_state, decode_local_ied_state}
use iedsync_together.LocalIedState.RoundTrip.{
  IsLocalIedState, round_state, decode_local_ied_state-encode,
}
use iedsync_together.LocalIedState.Sound.{decode_local_ied_state_sound}
use iedsync_together.Renderer.{Renderer, new_renderer}
use iedsync_together.Renderer.Calls.{configure_remote_item, configure_sex, all_accepted}
use iedsync_together.Renderer.Apply.{
  slot_items, proxy_actor, is_applied, apply, visible_slots, show_items, items_of, slot_items,
  place_visible, custom_items, shown_custom, slot_item, all_calls,
}
use iedsync_together.Renderer.Nodes.{slot_node, is_left_weapon}
use iedsync_together.FormIdentity.Forms.{resolve_form_identity}
use iedsync_together.Renderer.Apply.Repeated.{
  IsReady, apply-is_applied, apply_repeated, apply_stale,
}
use iedsync_together.Renderer.{TrackedRemoteObject}
use iedsync_together.Scene.{Store}
use iedsync_together.Renderer.Watchdog.{scale_epsilon, clamp_scale, needs_correction, check_found}
use iedsync_together.Renderer.Watchdog.Settled.{IsTolerant, check_found_settles}
use iedsync_together.Tests.Printing.{numerals}
use iedsync_together.Tests.Data.{ann}
use iedsync_together.Tests.Scenery.{
  whole, counting, shield_object, displays, displays-IsLocalIedState, accepting, failing, stage,
  at_rest, shown_shield,
}

split_ends_example :
    (split_from (split_fuel (codes "O|1|2")) (codes "O|1|2") b'|' 0
      ≡ some (split (codes "O|1|2") b'|'))
    × (join b'|' (split (codes "O|1|2") b'|') ≡ codes "O|1|2")
    × Every (Lacks b'|') (split (codes "O|1|2") b'|')
split_ends_example = split_ends (codes "O|1|2") b'|'

decode_local_ied_state-encode_example :
    decode_local_ied_state (encode_local_ied_state displays) ≡ some (round_state displays)
decode_local_ied_state-encode_example =
    decode_local_ied_state-encode displays displays-IsLocalIedState

decode_local_ied_state_sound_example : IsLocalIedState (round_state displays)
decode_local_ied_state_sound_example =
    decode_local_ied_state_sound (encode_local_ied_state displays) (round_state displays)
      (decode_local_ied_state-encode displays displays-IsLocalIedState)

abbrev proxy : ℕ
proxy = 0xFF000010

accepting-IsReady : IsReady (stage accepting) proxy
accepting-IsReady = record {
  actor = ann;
  machine = accepting;
  has_actor = unfold proxy_actor in refl;
  has_machine = refl;
}

-- The renderer after the shield was shown.
abbrev shown : Renderer
shown = (apply (stage accepting) new_renderer 5 proxy (codes "Ann") displays false).renderer

shows : (apply (stage accepting) new_renderer 5 proxy (codes "Ann") displays false).result ≡ true
unfolding apply proxy_actor is_applied lookup new_renderer show_items items_of slot_items
    visible_slots place_visible custom_items shown_custom slot_item slot_node resolve_form_identity
    configure_remote_item configure_sex is_left_weapon all_calls all_accepted
shows = refl

apply_repeated_example :
    let again = apply (stage accepting) shown 6 proxy (codes "Bert") displays false in
    (again.result ≡ true)
    × (again.calls ≡ [])
    × (again.renderer.applied_signatures ≡ shown.applied_signatures)
apply_repeated_example =
    apply_repeated (stage accepting) (stage accepting) new_renderer 5 6 proxy (codes "Ann")
      (codes "Bert") displays false shows accepting-IsReady

-- A forced display is refused behind the second call.
fails : (apply (stage failing) shown 5 proxy (codes "Ann") displays true).result ≡ false
unfolding apply proxy_actor is_applied lookup new_renderer show_items items_of slot_items
    visible_slots place_visible custom_items shown_custom slot_item slot_node resolve_form_identity
    configure_remote_item configure_sex is_left_weapon all_calls all_accepted
fails = refl

known : is_applied shown proxy (encode_local_ied_state displays) ≡ true
known = apply-is_applied (stage accepting) new_renderer 5 proxy (codes "Ann") displays false shows

failing-IsReady : IsReady (stage failing) proxy
failing-IsReady = record {
  actor = ann;
  machine = failing;
  has_actor = unfold proxy_actor in refl;
  has_machine = refl;
}

apply_stale_example :
    let failed = (apply (stage failing) shown 5 proxy (codes "Ann") displays true).renderer in
    let again = apply (stage failing) failed 5 proxy (codes "Ann") displays false in
    (again.result ≡ true) × (again.calls ≡ [])
apply_stale_example =
    apply_stale (stage failing) shown 5 proxy (codes "Ann") displays displays true known fails
      failing-IsReady

tolerant : IsTolerant
tolerant = record { rotation_pos = refl; position_pos = refl }

abbrev moved : Store
moved a = record at_rest { translate = 9 ∷ 9 ∷ 9 ∷ [] }

abbrev tracked : TrackedRemoteObject
tracked = record {
  item_name = codes "remote-slot-00";
  kind = codes "slot";
  slot_index = some 0;
  remote_form_id = 11;
  expected_attachment = codes "OBJECT R Back";
  captured = shield_object;
  acquired = false;
  corrections = 0;
}

check_found_settles_example :
    (needs_correction ((check_found (some shown_shield) tracked moved).1 8) shield_object ≡ (
      needs_correction (moved 8) shield_object
      && counting.less scale_epsilon (counting.difference (clamp_scale 1) 1)))
    × (needs_correction (moved 8) shield_object ≡ false
        → (check_found (some shown_shield) tracked moved).1 ≡ moved)
    × ((other : ℕ)
        → (8 == other) ≡ false
        → (check_found (some shown_shield) tracked moved).1 other ≡ moved other)
check_found_settles_example = check_found_settles tolerant shown_shield tracked moved
