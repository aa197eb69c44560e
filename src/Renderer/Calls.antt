-- ===== src/Renderer/Calls.antt =====
-- The calls of Papyrus functions that src/RemoteIEDRenderer.cpp makes. `DispatchStaticCall` of the
-- script engine is a parameter: what it answers to a call, after the calls that were made before.
use iedsync_together.Prelude.{ℕ, Bool, true, false, ◌&&◌, List, [], ◌∷◌, ◌++◌, if◌then◌else◌}
use iedsync_together.Text.{Bytes, codes}
use iedsync_together.Renderer.Nodes.{NodeSelection}

pub data Arg : Type 0 where
  of_actor : ℕ → Arg
  of_form : ℕ → Arg
  of_text : Bytes → Arg
  of_bool : Bool → Arg
  of_int : ℕ → Arg

-- A static call of a function of the class `IED`.
pub record Call : Type 0 where
  pub function_name : Bytes
  pub args : List Arg

abbrev pub Vm : Type 0
Vm = List Call → Call → Bool

-- Every call is made, whatever the answers: `dispatched &= ...`.
unfoldable pub all_accepted : Vm → List Call → List Call → Bool
all_accepted vm before [] = true
all_accepted vm before (c ∷ cs) = vm before c && all_accepted vm (before ++ (c ∷ [])) cs

abbrev pub plugin_key : Arg
plugin_key = of_text (codes "IEDSyncTogether.esp")

abbrev pub remove_actor_block : ℕ → Call
remove_actor_block actor = record {
  function_name = codes "RemoveActorBlock";
  args = of_actor actor ∷ plugin_key ∷ [];
}

abbrev pub delete_all_actor : ℕ → Call
delete_all_actor actor = record {
  function_name = codes "DeleteAllActor";
  args = of_actor actor ∷ plugin_key ∷ [];
}

abbrev pub evaluate : ℕ → Call
evaluate actor = record { function_name = codes "Evaluate"; args = of_actor actor ∷ [] }

-- A call on an item, with the arguments behind the item's name.
abbrev pub item_call : Bytes → ℕ → Bytes → List Arg → Call
item_call function_name actor item more = record {
  function_name = function_name;
  args = of_actor actor ∷ plugin_key ∷ of_text item ∷ more;
}

-- One round of the loop over both sexes.
unfoldable pub configure_sex : ℕ → Bytes → NodeSelection → Bool → Bool → List Call
configure_sex actor item selection left_weapon female =
    item_call (codes "SetItemAttachmentModeActor") actor item
      (of_bool female ∷ of_int (if selection.parent_attachment then 1 else 0) ∷ of_bool false ∷ [])
    ∷ item_call (codes "SetItemNodeActor") actor item (of_bool female ∷ of_text selection.node ∷ [])
    ∷ ((if left_weapon
          then item_call (codes "SetItemLeftWeaponActor") actor item
              (of_bool female ∷ of_bool true ∷ [])
            ∷ []
          else [])
        ++ item_call (codes "SetItemEnabledActor") actor item (of_bool female ∷ of_bool true ∷ [])
          ∷ [])

-- The calls of `ConfigureRemoteItem`.
unfoldable pub configure_remote_item : ℕ → Bytes → ℕ → NodeSelection → Bool → List Call
unfolding configure_sex
configure_remote_item actor item form selection left_weapon =
    item_call (codes "CreateItemActor") actor item
      (of_bool false ∷ of_form form ∷ of_bool false ∷ of_text selection.node ∷ [])
    ∷ item_call (codes "SetItemFormActor") actor item (of_bool true ∷ of_form form ∷ [])
    ∷ (configure_sex actor item selection left_weapon false
        ++ configure_sex actor item selection left_weapon true)

-- The calls of `ClearOwnedItems`, if the script engine is there.
unfoldable pub clear_owned_items : Bool → ℕ → List Call
clear_owned_items has_vm actor =
    if has_vm then remove_actor_block actor ∷ delete_all_actor actor ∷ evaluate actor ∷ [] else []
