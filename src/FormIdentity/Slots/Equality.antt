-- ===== src/FormIdentity/Slots/Equality.antt =====
-- The comparison of two states of the slots, of src/FormIdentity.h.
use iedsync_together.Prelude.{◌≡◌, ◌↔◌, true, ◌∷◌, Option, some, arith}
use iedsync_together.Text.Search.{equal_iff}
use iedsync_together.FormIdentity.Slots.{FormIdentity, SlotState, equal_slot, equal_slots}

equal_slot_iff : (a b : Option FormIdentity) → (equal_slot a b ≡ true) ↔ (a ≡ b)
unfolding equal_slot
equal_slot_iff (some a) (some b) = ground (arith, equal_iff a.plugin b.plugin)
equal_slot_iff _ _ = ground arith

-- The comparison of two states of the slots is true exactly if they are equal.
pub equal_slots_iff : (a b : SlotState) → (equal_slots a b ≡ true) ↔ (a ≡ b)
unfolding equal_slots
equal_slots_iff (x ∷ a) (y ∷ b) = ground (arith, equal_slot_iff x y, equal_slots_iff a b)
equal_slots_iff _ _ = ground arith
