-- ===== src/FormIdentity/Slots/Plain.antt =====
-- The bytes of the code of the slots.
use iedsync_together.Prelude.{
  ℕ, ◌≡◌, refl, true, [], ◌∷◌, Option, none, some, arith, Every, Every-append, Every-map, Lacks,
}
use iedsync_together.Text.Number.{Fmt, is_upper_hex}
use iedsync_together.Text.Plain.{IsPlain, is_plain}
use iedsync_together.FormIdentity.Hex.{hex_encode}
use iedsync_together.FormIdentity.Hex.RoundTrip.{hex_encode-upper}
use iedsync_together.FormIdentity.Slots.{
  FormIdentity, SlotState, encode_slot, encode_more, encode_slots,
}

module _ ⦃f : Fmt⦄ (P : ℕ → Type 0) (of_hex : (c : ℕ) → is_upper_hex c ≡ true → P c)
    (of_colon : P b':') (of_comma : P b',') (of_dash : P b'-') where
  encode_slot-Every : (slot : Option FormIdentity) → Every P (encode_slot slot)
  unfolding encode_slot
  encode_slot-Every none = (of_dash, tt)
  encode_slot-Every (some identity) =
      Every-append P (hex_encode identity.plugin) _
        (Every-map _ P of_hex _ (hex_encode-upper identity.plugin))
        (of_colon, Every-map _ P of_hex _ (f.hex_digits identity.local_form_id))

  encode_more-Every : (slots : SlotState) → Every P (encode_more slots)
  unfolding encode_more
  encode_more-Every [] = tt
  encode_more-Every (slot ∷ slots) = (
    of_comma,
    Every-append P (encode_slot slot) _ (encode_slot-Every slot) (encode_more-Every slots),
  )

  encode_slots-Every : (slots : SlotState) → Every P (encode_slots slots)
  unfolding encode_slots
  encode_slots-Every [] = tt
  encode_slots-Every (slot ∷ slots) =
      Every-append P (encode_slot slot) _ (encode_slot-Every slot) (encode_more-Every slots)

module _ ⦃f : Fmt⦄ where
  pub encode_slots-IsPlain : (slots : SlotState) → IsPlain (encode_slots slots)
  encode_slots-IsPlain =
      encode_slots-Every (λ c. is_plain c ≡ true) (λ c h. ground arith) refl refl refl

  pub encode_slots-Lacks : (slots : SlotState) → Lacks b'\n' (encode_slots slots)
  encode_slots-Lacks =
      encode_slots-Every _ (λ c h. λ e. ground arith) (λ e. ground arith) (λ e. ground arith)
        (λ e. ground arith)
