-- ===== src/Renderer/Apply.antt =====
-- `Apply`, `ClearProxy` and `Reset` of src/RemoteIEDRenderer.cpp.
pub mod Visible
pub mod Shown
pub mod Repeated
use mathlib.Core.Option
use iedsync_together.Prelude.{
  ℕ, zero, suc, ◌+◌, ◌≡◌, refl, Bool, true, false, not, ◌&&◌, ◌||◌, List, [], ◌∷◌, ◌++◌, Option,
  none, some, ltb, ◌==◌, if◌then◌else◌, get_elem?, set, replicate, ◌>>=◌, map,
}
use iedsync_together.Text.{Bytes, codes, equal, starts_with}
use iedsync_together.Text.Number.{Fmt}
use iedsync_together.Dict.{lookup, insert, erase, add, nat_eq}
use iedsync_together.Engine.{Engine, Actor, lookup_actor}
use iedsync_together.FormIdentity.Slots.{slot_count}
use iedsync_together.FormIdentity.Forms.{resolve_form_identity}
use iedsync_together.LocalIedState.{
  Floats, IedObjectKind, slot, custom, CapturedIedObject, LocalIedState, encode_local_ied_state,
}
use iedsync_together.Renderer.{
  Renderer, TrackedRemoteObject, TrackedProxyState, schedule_watchdog_tick,
}
use iedsync_together.Renderer.Nodes.{
  NodeSelection, slot_node, custom_node, expected_attachment_of, is_left_weapon, reference_prefix,
  parent_prefix,
}
use iedsync_together.Renderer.Calls.{
  Call, Vm, all_accepted, remove_actor_block, delete_all_actor, evaluate, configure_remote_item,
  clear_owned_items,
}

-- What the operations find around them: the forms, whether an actor is the local player, the script
-- engine and the task interface.
pub record Stage : Type 0 where
  pub engine : Engine
  pub is_player : Actor → Bool
  pub vm : Option Vm
  pub has_tasks : Bool

-- The actor of a proxy, unless it is the local player.
unfoldable pub proxy_actor : Stage → ℕ → Option Actor
proxy_actor stage proxy =
    lookup_actor stage.engine proxy >>= λ actor. if stage.is_player actor then none else some actor

abbrev pub is_slot_kind : IedObjectKind → Bool
is_slot_kind slot = true
is_slot_kind custom = false

-- `fmt::format("{:02}", n)`: the number, filled up with a `0` to two digits.
unfoldable pub two_digits : ⦃f : Fmt⦄ → ℕ → Bytes
two_digits ⦃f⦄ n = if ltb n 10 then b'0' ∷ f.dec n else f.dec n

module _ ⦃fl : Floats⦄ where
  -- The slot in which the object is to be shown, if it is.
  unfoldable pub visible_slot : CapturedIedObject → Option ℕ
  visible_slot o = if not (is_slot_kind o.kind) || not o.visible then none else o.slot_index

  unfoldable pub place_at :
      Option ℕ
      → CapturedIedObject
      → List (Option CapturedIedObject)
      → List (Option CapturedIedObject)
  place_at none o slots = slots
  place_at (some index) o slots = elim (get_elem? slots index) [
    | some none ↦ set slots index (some o)
    | some (some earlier) ↦ slots
    | none ↦ slots
  ]

  unfoldable pub place_visible :
      List CapturedIedObject → List (Option CapturedIedObject) → List (Option CapturedIedObject)
  unfolding visible_slot place_at
  place_visible [] slots = slots
  place_visible (o ∷ os) slots = place_visible os (place_at (visible_slot o) o slots)

  unfoldable pub visible_slots : List CapturedIedObject → List (Option CapturedIedObject)
  unfolding place_visible
  visible_slots objects = place_visible objects (replicate slot_count none)

  -- An item that is shown: the calls that configure it, and how the watchdog knows it.
  pub record Item : Type 0 where
    pub calls : List Call
    pub tracked : TrackedRemoteObject

module _ ⦃f : Fmt⦄ ⦃fl : Floats⦄ (stage : Stage) (actor : ℕ) where
  unfoldable pub slot_item : ℕ → CapturedIedObject → ℕ → Item
  unfolding two_digits
  slot_item index o form_id =
      let item_name = codes "remote-slot-" ++ two_digits index in
      let selection = slot_node o index in
      record {
        calls = configure_remote_item actor item_name form_id selection (is_left_weapon index);
        tracked = record {
          item_name = item_name;
          kind = codes "slot";
          slot_index = some index;
          remote_form_id = form_id;
          expected_attachment = expected_attachment_of selection;
          captured = o;
          acquired = false;
          corrections = 0;
        };
      }

  -- The loop over the slots from `index` on.
  unfoldable pub slot_items : ℕ → List (Option CapturedIedObject) → List Item
  unfolding slot_item
  slot_items index [] = []
  slot_items index (none ∷ slots) = slot_items (suc index) slots
  slot_items index (some o ∷ slots) = elim (resolve_form_identity stage.engine o.form) [
    | none ↦ slot_items (suc index) slots
    | some form ↦ slot_item index o form.form_id ∷ slot_items (suc index) slots
  ]

  unfoldable pub custom_item : ℕ → CapturedIedObject → NodeSelection → ℕ → Item
  unfolding two_digits
  custom_item index o selection form_id =
      let item_name = codes "remote-custom-" ++ two_digits index in
      record {
        calls = configure_remote_item actor item_name form_id selection false;
        tracked = record {
          item_name = item_name;
          kind = codes "custom";
          slot_index = none;
          remote_form_id = form_id;
          expected_attachment =
              if starts_with o.attachment_node reference_prefix
                || starts_with o.attachment_node parent_prefix
              then o.attachment_node
              else expected_attachment_of selection;
          captured = o;
          acquired = false;
          corrections = 0;
        };
      }

  -- The node and the form of an object of the second loop, unless it is skipped.
  unfoldable pub shown_custom : CapturedIedObject → Option (NodeSelection × ℕ)
  shown_custom o =
      if is_slot_kind o.kind || not o.visible
      then none
      else (custom_node o >>= λ selection.
          resolve_form_identity stage.engine o.form >>= λ form. some (selection, form.form_id))

  -- The loop over the objects, with the number of the items so far.
  unfoldable pub custom_items : ℕ → List CapturedIedObject → List Item
  unfolding custom_item shown_custom
  custom_items index [] = []
  custom_items index (o ∷ os) = elim (shown_custom o) [
    | none ↦ custom_items index os
    | some (selection, form_id) ↦
        custom_item index o selection form_id ∷ custom_items (suc index) os
  ]

  unfoldable pub items_of : LocalIedState → List Item
  items_of state = slot_items 0 (visible_slots state.objects) ++ custom_items 0 state.objects

module _ ⦃fl : Floats⦄ where
  unfoldable pub all_calls : List Item → List Call
  all_calls [] = []
  all_calls (item ∷ items) = item.calls ++ all_calls items

  -- The renderer afterwards, the calls that were made, and the result.
  pub record Outcome : Type 0 where
    pub renderer : Renderer
    pub calls : List Call
    pub result : Bool

  -- `it != end() && it->second == signature`.
  unfoldable pub is_applied : Renderer → ℕ → Bytes → Bool
  is_applied r proxy signature = elim (lookup proxy r.applied_signatures) [
    | none ↦ false
    | some applied ↦ equal applied signature
  ]

  -- Of a state that is shown already, only who shows it is brought up to date.
  unfoldable pub rename_proxy : Renderer → ℕ → ℕ → Bytes → Renderer
  rename_proxy r proxy connection name = elim (lookup proxy r.tracked_proxies) [
    | none ↦ r
    | some tracked ↦ record r {
      tracked_proxies =
          insert proxy (record tracked { connection_id = connection; display_name = name })
            r.tracked_proxies;
    }
  ]

  -- What follows the last call: the tracked objects and, if every call was accepted, the signature.
  unfoldable pub remember : Stage → Renderer → ℕ → TrackedProxyState → Bytes → Bool → Renderer
  remember stage r proxy tracked signature dispatched =
      let scheduled =
        schedule_watchdog_tick stage.has_tasks
          (record r { tracked_proxies = insert proxy tracked r.tracked_proxies }) in
      if dispatched
      then record scheduled {
        applied_signatures = insert proxy signature scheduled.applied_signatures;
      }
      else scheduled

module _ ⦃f : Fmt⦄ ⦃fl : Floats⦄ where
  -- The part of `Apply` that shows the items of the state.
  unfoldable pub show_items :
      Stage → Vm → Renderer → Actor → ℕ → ℕ → Bytes → LocalIedState → Outcome
  unfolding items_of remember all_calls
  show_items stage vm r actor connection proxy name state =
      let items = items_of stage actor.form_id state in
      let calls =
        remove_actor_block actor.form_id
        ∷ delete_all_actor actor.form_id
        ∷ (all_calls items ++ evaluate actor.form_id ∷ []) in
      let dispatched = all_accepted vm [] calls in
      record {
        renderer =
            remember stage r proxy
              (record {
                connection_id = connection;
                display_name = name;
                objects = map (λ (item : Item). item.tracked) items;
              })
              (encode_local_ied_state state) dispatched;
        calls = calls;
        result = dispatched;
      }

  unfoldable pub apply : Stage → Renderer → ℕ → ℕ → Bytes → LocalIedState → Bool → Outcome
  unfolding show_items rename_proxy is_applied
  apply stage r connection proxy name state force = elim (proxy_actor stage proxy) [
    | none ↦ record { renderer = r; calls = []; result = false }
    | some actor ↦ elim stage.vm [
      | none ↦ record { renderer = r; calls = []; result = false }
      | some vm ↦
          if not force && is_applied r proxy (encode_local_ied_state state)
          then record {
            renderer =
                schedule_watchdog_tick stage.has_tasks (rename_proxy r proxy connection name);
            calls = [];
            result = true;
          }
          else show_items stage vm r actor connection proxy name state
    ]
  ]

module _ ⦃fl : Floats⦄ where
  abbrev pub has_vm : Stage → Bool
  has_vm stage = elim stage.vm [ none ↦ false | some vm ↦ true ]

  -- The renderer afterwards, and the calls.
  unfoldable pub clear_proxy : Stage → Renderer → ℕ → Renderer × List Call
  clear_proxy stage r proxy = if proxy == 0 then (r, []) else (
    record r {
      tracked_proxies = erase proxy r.tracked_proxies;
      applied_signatures = erase proxy r.applied_signatures;
    },
    elim (proxy_actor stage proxy) [
      | none ↦ []
      | some actor ↦ clear_owned_items (has_vm stage) actor.form_id
    ],
  )

  unfoldable pub clear_proxies : Stage → Renderer → List ℕ → Renderer × List Call
  unfolding clear_proxy
  clear_proxies stage r [] = (r, [])
  clear_proxies stage r (proxy ∷ proxies) =
      let (r1, calls) = clear_proxy stage r proxy in
      let (r2, more) = clear_proxies stage r1 proxies in (r2, calls ++ more)

  -- The set of the keys, each of them added to those found before.
  unfoldable pub add_keys {ℓ} : {V : Type ℓ} → List (ℕ × V) → List ℕ → List ℕ
  add_keys [] keys = keys
  add_keys ((key, value) ∷ entries) keys = add_keys entries (add key keys)

  unfoldable pub reset_renderer : Stage → Renderer → Renderer × List Call
  unfolding clear_proxies add_keys
  reset_renderer stage r =
      let proxies = add_keys r.tracked_proxies (add_keys r.applied_signatures []) in
      let (cleared, calls) = clear_proxies stage r proxies in
      (record cleared { applied_signatures = []; tracked_proxies = [] }, calls)
