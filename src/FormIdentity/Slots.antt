-- ===== src/FormIdentity/Slots.antt =====
-- `FormIdentity`, `SlotState`, `EncodeSlots` and `DecodeSlots` of src/FormIdentity.h and
-- src/FormIdentity.cpp. A `SlotState` is a list; that it has 19 entries is stated where it is used.
pub mod RoundTrip
pub mod Sound
pub mod Plain
pub mod Equality
use iedsync_together.Prelude.{
  ℕ, zero, suc, ◌+◌, ◌≡◌, refl, Bool, true, false, ◌&&◌, ◌||◌, List, [], ◌∷◌, ◌++◌, Option, none,
  some, ltb, ◌==◌, if◌then◌else◌, length, take, drop, ◌>>=◌, is_some, replicate,
}
use iedsync_together.Text.{Bytes, codes, equal, find, is_empty, slice, substr, substr_count}
use iedsync_together.Text.Number.{stoul, u32_max, Fmt}
use iedsync_together.FormIdentity.Hex.{hex_encode, hex_decode}

pub record FormIdentity : Type 0 where
  pub plugin : Bytes
  pub local_form_id : ℕ

abbrev pub SlotState : Type 0
SlotState = List (Option FormIdentity)

-- `IEDST::kSlotCount`, the size of the array.
abbrev pub slot_count : ℕ
slot_count = 19

-- `SlotState{}`.
abbrev pub no_slots : SlotState
no_slots = replicate slot_count none

module _ ⦃f : Fmt⦄ where
  -- What the loop of `EncodeSlots` appends for one slot, after the comma.
  unfoldable pub encode_slot : Option FormIdentity → Bytes
  encode_slot none = b'-' ∷ []
  encode_slot (some identity) = hex_encode identity.plugin ++ b':' ∷ f.hex identity.local_form_id

  -- The slots behind the first, each with its comma.
  encode_more : SlotState → Bytes
  encode_more [] = []
  encode_more (slot ∷ slots) = b',' ∷ (encode_slot slot ++ encode_more slots)

  unfoldable pub encode_slots : SlotState → Bytes
  unfolding encode_slot encode_more
  encode_slots [] = []
  encode_slots (slot ∷ slots) = encode_slot slot ++ encode_more slots

-- The number behind the separator. `0` names no form.
decode_local_id : Bytes → Option ℕ
decode_local_id text = stoul 16 text >>= λ local_id.
    if local_id == 0 || ltb u32_max local_id then none else some local_id

decode_identity : Bytes → ℕ → Option FormIdentity
unfolding decode_local_id
decode_identity token separator = hex_decode (substr_count token 0 separator) >>= λ plugin.
    if is_empty plugin
    then none
    else (decode_local_id (substr token (separator + 1)) >>= λ local_id.
        some (record { plugin = plugin; local_form_id = local_id }))

-- One token of the list. The outer `none` is a refusal, the inner one an empty slot.
unfoldable pub decode_slot : Bytes → Option (Option FormIdentity)
unfolding decode_identity
decode_slot token =
    if is_empty token
    then none
    else if equal token (codes "-")
    then some none
    else (find token (codes ":") >>= λ separator.
        decode_identity token separator >>= λ identity. some (some identity))

-- What follows a token: nothing behind the last slot, and a comma and the other slots behind any
-- other.
after_token :
    ℕ → Option FormIdentity → Bytes → Option ℕ → (Bytes → Option SlotState) → Option SlotState
after_token left slot rest none more = if left == 0 then some (slot ∷ []) else none
after_token left slot rest (some comma) more =
    if left == 0 then none else (more (drop (comma + 1) rest) >>= λ slots. some (slot ∷ slots))

-- The loop over the slots that are left, on the text from `start` on.
decode_from : ℕ → Bytes → Option SlotState
decode_from zero rest = some []
decode_from (suc left) rest =
    let end = find rest (codes ",") in
    decode_slot (slice rest 0 end) >>= λ slot. after_token left slot rest end (decode_from left)

unfoldable pub decode_slots : Bytes → Option SlotState
unfolding decode_from after_token decode_slot
decode_slots value = decode_from slot_count value

-- `operator==` of an entry and of the array.
unfoldable pub equal_slot : Option FormIdentity → Option FormIdentity → Bool
equal_slot none none = true
equal_slot none (some b) = false
equal_slot (some a) none = false
equal_slot (some a) (some b) = equal a.plugin b.plugin && a.local_form_id == b.local_form_id

unfoldable pub equal_slots : SlotState → SlotState → Bool
unfolding equal_slot
equal_slots [] [] = true
equal_slots (a ∷ as_more) (b ∷ bs_more) = equal_slot a b && equal_slots as_more bs_more
equal_slots _ _ = false
