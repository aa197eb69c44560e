-- ===== src/CaptureProbe.antt =====
-- src/LocalCaptureProbe.h and src/LocalCaptureProbe.cpp: the displays of the local player, read off the
-- scene, and the changes of them that are published. The probe's thread only adds ticks to the game's
-- tasks; a tick and the end of a capture are steps on the game's thread.
pub mod Published
pub mod Sendable
use mathlib.Core.List.{Permᴰ}
use iedsync_together.Prelude.{
  ℕ, zero, suc, ◌+◌, ◌≡◌, Bool, true, false, not, ◌&&◌, ◌||◌, List, [], ◌∷◌, ◌++◌, Option, none,
  some, ◌==◌, if◌then◌else◌, ◌>>=◌, map, is_some,
}
use iedsync_together.Text.{Bytes, codes, equal}
use iedsync_together.Text.Number.{Fmt}
use iedsync_together.Dict.{member, nat_eq}
use iedsync_together.Engine.{Engine, Form}
use iedsync_together.FormIdentity.Slots.{FormIdentity, SlotState, no_slots}
use iedsync_together.FormIdentity.Forms.{make_form_identity, resolve_form_identity}
use iedsync_together.LocalIedState.{
  Floats, IedObjectKind, slot, custom, CapturedIedObject, LocalIedState, encode_local_ied_state,
}
use iedsync_together.Scene.{
  Object, Tree, tree, Children, leaf, null_child, child, or_empty, parse_ied_object_form_id,
  Transform, Store, Arithmetic,
}

-- `FindSlot`, on the forms from slot `i` on.
unfoldable pub find_slot : ℕ → ℕ → List ℕ → Option ℕ
find_slot i form_id [] = none
find_slot i form_id (slotted ∷ more) =
    if slotted == form_id then some i else find_slot (suc i) form_id more

-- The first loop of `CompleteCapture`: the ids of the forms in the slots, or `0`.
unfoldable pub slotted_form : Engine → Option FormIdentity → ℕ
slotted_form engine none = 0
slotted_form engine (some identity) = elim (resolve_form_identity engine identity) [
  | none ↦ 0
  | some form ↦ form.form_id
]

-- `FormIdentity{}`.
abbrev pub no_identity : FormIdentity
no_identity = record { plugin = []; local_form_id = 0 }

abbrev pub kind_for : Option ℕ → IedObjectKind
kind_for none = custom
kind_for (some index) = slot

-- What a capture finds around it: the forms, the tree of the local player, if it is loaded, and the
-- local transforms.
pub record Surroundings ⦃fl : Floats⦄ : Type 0 where
  pub engine : Engine
  pub player_root : Option Tree
  pub transforms : Store

module _ ⦃fl : Floats⦄ ⦃fa : Arithmetic⦄ where
  -- `Q`.
  unfoldable pub quantize : fl.Float → fl.Float
  quantize value =
      fa.over (fa.round (fa.times value (fa.literal (codes "1000.0"))))
        (fa.literal (codes "1000.0"))

  unfoldable pub identity_or_none : Engine → ℕ → FormIdentity
  identity_or_none engine form_id = elim (make_form_identity (engine.lookup_by_id form_id)) [
    | none ↦ no_identity
    | some identity ↦ identity
  ]

  -- `MakeCapturedObject`, of an object that is there.
  unfoldable pub make_captured_object : Surroundings → Object → ℕ → Option ℕ → CapturedIedObject
  unfolding identity_or_none
  make_captured_object around object form_id index = record {
    kind = kind_for index;
    form = identity_or_none around.engine form_id;
    slot_index = index;
    visible = not object.culled;
    object_node = or_empty object.name;
    attachment_node = or_empty object.parent_name;
    anchor_node = or_empty object.anchor_name;
    position = map quantize (around.transforms object.address).translate;
    rotation_matrix = map quantize (around.transforms object.address).rotate;
    scale = quantize (around.transforms object.address).size;
  }

  -- What is captured of one object: nothing unless its name holds the id of a form with an identity.
  unfoldable pub captured_object : Surroundings → List ℕ → Object → Option CapturedIedObject
  captured_object around slotted object =
      parse_ied_object_form_id (or_empty object.name) >>= λ form_id.
      make_form_identity (around.engine.lookup_by_id form_id) >>= λ identity.
      some (make_captured_object around object form_id (find_slot 0 form_id slotted))

  abbrev pub appended : List CapturedIedObject → Option CapturedIedObject → List CapturedIedObject
  appended out none = out
  appended out (some o) = out ++ (o ∷ [])

  -- The objects that are captured and the addresses that are visited so far.
  abbrev pub Visit : Type 0
  Visit = List CapturedIedObject × List ℕ

  module _ (around : Surroundings) (slotted : List ℕ) where
    unfoldable mutual
      pub visit_ied_objects : Tree → Visit → Visit
      visit_ied_objects (tree object children) (out, visited) =
          if member object.address visited
          then (out, visited)
          else visit_children children
              (appended out (captured_object around slotted object), object.address ∷ visited)

      pub visit_children : Children → Visit → Visit
      visit_children leaf visit = visit
      visit_children (null_child more) visit = visit_children more visit
      visit_children (child t more) visit = visit_children more (visit_ied_objects t visit)

  abbrev pub same_floats : List fl.Float → List fl.Float → Bool
  same_floats [] [] = true
  same_floats (x ∷ xs) (y ∷ ys) = fa.same x y && same_floats xs ys
  same_floats _ _ = false

  abbrev pub same_kind : IedObjectKind → IedObjectKind → Bool
  same_kind slot slot = true
  same_kind custom custom = true
  same_kind _ _ = false

  abbrev pub same_index : Option ℕ → Option ℕ → Bool
  same_index none none = true
  same_index (some i) (some j) = i == j
  same_index _ _ = false

  abbrev pub same_flag : Bool → Bool → Bool
  same_flag true b = b
  same_flag false b = not b

  unfoldable pub same_logical_object : CapturedIedObject → CapturedIedObject → Bool
  same_logical_object a b =
      same_kind a.kind b.kind
      && (equal a.form.plugin b.form.plugin && a.form.local_form_id == b.form.local_form_id)
      && same_index a.slot_index b.slot_index
      && same_flag a.visible b.visible
      && equal a.object_node b.object_node
      && equal a.attachment_node b.attachment_node
      && equal a.anchor_node b.anchor_node
      && same_floats a.position b.position
      && same_floats a.rotation_matrix b.rotation_matrix
      && fa.same a.scale b.scale

  -- `std::unique` behind a kept object: what is like the object kept last is left out.
  unfoldable pub unique_behind : CapturedIedObject → List CapturedIedObject → List CapturedIedObject
  unfolding same_logical_object
  unique_behind kept [] = []
  unique_behind kept (o ∷ os) = elim (same_logical_object kept o) [
    | true ↦ unique_behind kept os
    | false ↦ o ∷ unique_behind o os
  ]

  unfoldable pub unique_objects : List CapturedIedObject → List CapturedIedObject
  unfolding unique_behind
  unique_objects [] = []
  unique_objects (o ∷ os) = o ∷ unique_behind o os

-- `std::ranges::sort` by plugin, number, slot, attachment and name, which leaves open the order of
-- objects that agree in all of these: some permutation of the objects.
pub record Sorter ⦃fl : Floats⦄ : Type 0 where
  pub sort : List CapturedIedObject → List CapturedIedObject
  pub sort-Perm : (objects : List CapturedIedObject) → Permᴰ objects (sort objects)

-- The members of the class; whether there is a handler.
pub record Probe ⦃fl : Floats⦄ : Type 0 where
  pub running : Bool
  pub capture_in_flight : Bool
  pub last_state : LocalIedState
  pub last_payload : Bytes
  pub has_handler : Bool

module _ ⦃fl : Floats⦄ where
  -- `LocalIEDState{}`.
  abbrev pub empty_state : LocalIedState
  empty_state = record { slots = no_slots; objects = [] }

  -- `Start`, `Stop`, `Reset` and `SetStateChangedHandler`.
  unfoldable pub start_probe : Probe → Probe
  start_probe p = record p { running = true }

  unfoldable pub stop_probe : Probe → Probe
  stop_probe p =
      if not p.running then p else record p { running = false; capture_in_flight = false }

  unfoldable pub reset_probe : Probe → Probe
  reset_probe p = record p {
    last_state = empty_state;
    last_payload = [];
    capture_in_flight = false;
  }

  unfoldable pub set_state_changed_handler : Probe → Probe
  set_state_changed_handler p = record p { has_handler = true }

  -- `Tick`: the probe, and whether `CapturePlayerSlots` is called; the argument is what it gives. Its
  -- callback is `CompleteCapture`, and it may come at once.
  unfoldable pub tick_probe : Probe → Bool → Probe × Bool
  tick_probe p begins =
      if not p.running || p.capture_in_flight
      then (p, false)
      else (record p { capture_in_flight = begins }, true)

module _ ⦃fl : Floats⦄ ⦃fa : Arithmetic⦄ ⦃order : Sorter⦄ where
  -- The state that `CompleteCapture` puts together.
  unfoldable pub gather_state : Surroundings → SlotState → LocalIedState
  unfolding visit_ied_objects slotted_form
  gather_state around slots = record {
    slots = slots;
    objects = unique_objects (
        order.sort (elim around.player_root [
          | none ↦ []
          | some root ↦
              (visit_ied_objects around (map (slotted_form around.engine) slots) root ([], [])).0
        ]));
  }

module _ ⦃f : Fmt⦄ ⦃fl : Floats⦄ ⦃fa : Arithmetic⦄ ⦃order : Sorter⦄ where
  -- `CompleteCapture`: the probe, and what the handler is called with, if it is.
  unfoldable pub complete_capture :
      Surroundings → Probe → SlotState → Probe × Option (LocalIedState × Bytes)
  unfolding gather_state
  complete_capture around p slots =
      let state = gather_state around slots in
      let payload = encode_local_ied_state state in
      if not (equal payload p.last_payload)
      then (
        record p { last_state = state; last_payload = payload; capture_in_flight = false },
        if p.has_handler then some (state, payload) else none,
      )
      else (record p { capture_in_flight = false }, none)
