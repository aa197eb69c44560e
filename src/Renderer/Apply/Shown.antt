-- ===== src/Renderer/Apply/Shown.antt =====
-- The items that `Apply` of src/RemoteIEDRenderer.cpp sets up for the slots, told slot by slot.
use iedsync_together.Prelude.{
  ℕ, zero, suc, Bool, true, false, List, [], ◌∷◌, ◌++◌, Option, none, some, ◌==◌, if◌then◌else◌,
}
use iedsync_together.Text.Number.{Fmt}
use iedsync_together.FormIdentity.Forms.{resolve_form_identity}
use iedsync_together.LocalIedState.{Floats, slot, custom, CapturedIedObject}
use iedsync_together.Renderer.Apply.{Stage, Item, slot_item}

module _ ⦃fl : Floats⦄ where
  -- A visible object of the slot: its kind is that of the slots, it is marked as visible, and its index
  -- is that of the slot.
  abbrev pub is_of_slot : ℕ → CapturedIedObject → Bool
  is_of_slot s o = elim o.kind [
    | custom ↦ false
    | slot ↦ elim o.visible [
      | false ↦ false
      | true ↦ elim o.slot_index [ none ↦ false | some index ↦ index == s ]
    ]
  ]

  -- The first visible object of the slot.
  unfoldable pub first_of_slot : ℕ → List CapturedIedObject → Option CapturedIedObject
  first_of_slot s [] = none
  first_of_slot s (o ∷ os) =
      let later = first_of_slot s os in if is_of_slot s o then some o else later

module _ ⦃f : Fmt⦄ ⦃fl : Floats⦄ (stage : Stage) (actor : ℕ) where
  -- What is set up for one slot: the first visible object of the slot, if there is one and its form is
  -- known here.
  unfoldable pub shown_in : ℕ → Option CapturedIedObject → List Item
  shown_in s none = []
  shown_in s (some o) = elim (resolve_form_identity stage.engine o.form) [
    | none ↦ []
    | some form ↦ slot_item stage actor s o form.form_id ∷ []
  ]

  -- The same for so many slots, from one on.
  unfoldable pub shown_from : ℕ → ℕ → List CapturedIedObject → List Item
  unfolding shown_in first_of_slot
  shown_from s zero objects = []
  shown_from s (suc n) objects =
      shown_in s (first_of_slot s objects) ++ shown_from (suc s) n objects
