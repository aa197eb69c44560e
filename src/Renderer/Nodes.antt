-- ===== src/Renderer/Nodes.antt =====
-- `SlotNode`, `CustomNode` and `ExpectedAttachment` of src/RemoteIEDRenderer.cpp.
use iedsync_together.Prelude.{
  ℕ, Bool, true, false, not, ◌&&◌, ◌||◌, List, [], ◌∷◌, ◌++◌, Option, none, some, if◌then◌else◌,
  get_elem?, length,
}
use iedsync_together.Text.{Bytes, codes, starts_with, is_empty, substr}
use iedsync_together.LocalIedState.{Floats, CapturedIedObject}

-- `kGearNodes` and `kLeftWeaponSlots`.
abbrev pub gear_nodes : List Bytes
gear_nodes =
    codes "WeaponSword"
    ∷ codes "WeaponSwordLeft"
    ∷ codes "WeaponAxe"
    ∷ codes "WeaponAxeLeft"
    ∷ codes "WeaponBack"
    ∷ codes "WeaponBackLeft"
    ∷ codes "WeaponBackAxeMace"
    ∷ codes "WeaponBackAxeMaceLeft"
    ∷ codes "WeaponDagger"
    ∷ codes "WeaponDaggerLeft"
    ∷ codes "WeaponMace"
    ∷ codes "WeaponMaceLeft"
    ∷ codes "WeaponStaff"
    ∷ codes "WeaponStaffLeft"
    ∷ codes "WeaponBow"
    ∷ codes "WeaponCrossbow"
    ∷ codes "ShieldBack"
    ∷ codes "WeaponTorch"
    ∷ codes "QUIVER"
    ∷ []

abbrev pub left_weapon_slots : List Bool
left_weapon_slots =
    false ∷ true ∷ false ∷ true ∷ false ∷ true ∷ false ∷ true ∷ false ∷ true ∷ false ∷ true ∷ false
    ∷ true ∷ false ∷ false ∷ false ∷ false ∷ false ∷ []

-- `kGearNodes[slot]` and `kLeftWeaponSlots[slot]`, for a slot below 19.
unfoldable pub gear_node : ℕ → Bytes
gear_node slot = elim (get_elem? gear_nodes slot) [ none ↦ [] | some node ↦ node ]

unfoldable pub is_left_weapon : ℕ → Bool
is_left_weapon slot = elim (get_elem? left_weapon_slots slot) [ none ↦ false | some left ↦ left ]

pub record NodeSelection : Type 0 where
  pub node : Bytes
  pub source : Bytes
  pub parent_attachment : Bool

abbrev pub reference_prefix : Bytes
reference_prefix = codes "OBJECT R "

abbrev pub parent_prefix : Bytes
parent_prefix = codes "OBJECT P "

-- The nonempty rest of a text behind a prefix.
unfoldable pub behind : Bytes → Bytes → Option Bytes
behind prefix text =
    let suffix = substr text (length prefix) in
    if starts_with text prefix && not (is_empty suffix) then some suffix else none

-- The node that the attachment names, first as a reference and then as a parent.
unfoldable pub attachment_selection : Bytes → Bytes → Option NodeSelection
unfolding behind
attachment_selection source attachment = elim (behind reference_prefix attachment) [
  | some suffix ↦ some (record { node = suffix; source = source; parent_attachment = false })
  | none ↦ elim (behind parent_prefix attachment) [
    | some suffix ↦ some (record { node = suffix; source = source; parent_attachment = true })
    | none ↦ none
  ]
]

module _ ⦃fl : Floats⦄ where
  unfoldable pub slot_node : CapturedIedObject → ℕ → NodeSelection
  unfolding attachment_selection gear_node
  slot_node o slot =
      if not (is_empty o.anchor_node)
        && (starts_with o.anchor_node (codes "MOV ") || starts_with o.anchor_node (codes "CME "))
      then record {
        node = o.anchor_node;
        source = codes "captured-anchor";
        parent_attachment = true;
      }
      else elim (attachment_selection (codes "captured-attachment") o.attachment_node) [
        | some selection ↦ selection
        | none ↦ record {
          node = gear_node slot;
          source = codes "slot-fallback";
          parent_attachment = false;
        }
      ]

  unfoldable pub custom_node : CapturedIedObject → Option NodeSelection
  unfolding attachment_selection
  custom_node o =
      elim (attachment_selection (codes "captured-custom-attachment") o.attachment_node) [
        | some selection ↦ some selection
        | none ↦
            if not (is_empty o.anchor_node)
            then some (record {
              node = o.anchor_node;
              source = codes "custom-anchor-fallback";
              parent_attachment = true;
            })
            else none
      ]

unfoldable pub expected_attachment_of : NodeSelection → Bytes
expected_attachment_of selection =
    codes "OBJECT "
    ++ ((if selection.parent_attachment then codes "P" else codes "R")
        ++ (codes " " ++ selection.node))
