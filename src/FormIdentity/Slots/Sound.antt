-- ===== src/FormIdentity/Slots/Sound.antt =====
-- About what `DecodeSlots` accepts.
use iedsync_together.Prelude.{
  ℕ, zero, suc, ◌+◌, ◌≤◌, ◌<◌, ◌≡◌, ◌≢◌, refl, ap, ◌||◌, [], ◌∷◌, Option, none, some, ltb, ◌==◌,
  if◌then◌else◌, length, drop, ◌>>=◌, Every, arith, inl, inr, Bool-cases, >>=-eq-some, some_inj,
  subst,
}
use iedsync_together.Text.{Bytes, codes, equal, find, is_empty, substr, substr_count}
use iedsync_together.Text.Number.{stoul, u32_max}
use iedsync_together.FormIdentity.Hex.{hex_decode}
use iedsync_together.FormIdentity.Hex.RoundTrip.{IsByteText, hex_decode-IsByteText}
use iedsync_together.FormIdentity.Slots.{
  FormIdentity, SlotState, slot_count, decode_local_id, decode_identity, decode_slot, after_token,
  decode_from, decode_slots,
}
use iedsync_together.FormIdentity.Slots.RoundTrip.{IsIdentity, IsSlot}

in_range_identity : (text : Bytes) {n : ℕ} → decode_local_id text ≡ some n → (0 < n) × (n ≤ u32_max)
unfolding decode_local_id
in_range_identity text {n} e = let (m, _, h) = >>=-eq-some (stoul 16 text) _ e in range m h
  where
    range :
        (m : ℕ)
        → (if m == 0 || ltb u32_max m then none else some m) ≡ some n
        → (0 < n) × (n ≤ u32_max)
    range m h = ground arith

decode_identity-IsIdentity :
    (token : Bytes) (separator : ℕ) {identity : FormIdentity}
    → decode_identity token separator ≡ some identity
    → IsIdentity identity
unfolding decode_identity
decode_identity-IsIdentity token separator {identity} e =
    let (plugin, decoded, e1) = >>=-eq-some (hex_decode (substr_count token 0 separator)) _ e in
    from_plugin plugin (hex_decode-IsByteText _ decoded) e1
  where
    from_parts :
        (plugin : Bytes) (n : ℕ)
        → IsByteText plugin
        → plugin ≢ []
        → (0 < n) × (n ≤ u32_max)
        → IsIdentity (record { plugin = plugin; local_form_id = n })
    from_parts plugin n b ne r = record {
      plugin_bytes = b;
      plugin_ne_nil = ne;
      id_pos = r.0;
      id_le = r.1;
    }

    from_plugin :
        (plugin : Bytes)
        → IsByteText plugin
        → (if is_empty plugin
            then none
            else (decode_local_id (substr token (separator + 1)) >>= λ local_id.
                some (record { plugin = plugin; local_form_id = local_id })))
          ≡ some identity
        → IsIdentity identity
    from_plugin [] b h = cc
    from_plugin (c ∷ cs) b h =
        let (n, decoded, h1) = >>=-eq-some (decode_local_id (substr token (separator + 1))) _ h in
        subst IsIdentity (some_inj h1)
          (from_parts (c ∷ cs) n b (λ q. cc) (in_range_identity _ decoded))

decode_slot-IsSlot :
    (token : Bytes) {slot : Option FormIdentity} → decode_slot token ≡ some slot → IsSlot slot
unfolding decode_slot
decode_slot-IsSlot [] {slot} e = cc
decode_slot-IsSlot (c ∷ cs) {slot} e = elim (Bool-cases (equal (c ∷ cs) (codes "-"))) [
  | inl dash ↦ subst IsSlot (some_inj (rw dash at e)) tt
  | inr other ↦ full (rw other at e)
]
  where
    full :
        (find (c ∷ cs) (codes ":") >>= λ separator.
        decode_identity (c ∷ cs) separator >>= λ identity. some (some identity))
          ≡ some slot
        → IsSlot slot
    full h =
        let (separator, _, h1) = >>=-eq-some (find (c ∷ cs) (codes ":")) _ h in
        let (identity, decoded, h2) = >>=-eq-some (decode_identity (c ∷ cs) separator) _ h1 in
        subst IsSlot (some_inj h2) (decode_identity-IsIdentity (c ∷ cs) separator decoded)

abbrev AreSlots : ℕ → SlotState → Type 0
AreSlots n slots = (length slots ≡ n) × Every IsSlot slots

after_token-AreSlots :
    (left : ℕ) (slot : Option FormIdentity) (rest : Bytes) (end : Option ℕ)
    (more : Bytes → Option SlotState) {slots : SlotState}
    → IsSlot slot
    → ((r : Bytes) (s : SlotState) → more r ≡ some s → AreSlots left s)
    → after_token left slot rest end more ≡ some slots
    → AreSlots (suc left) slots
unfolding after_token
after_token-AreSlots left slot rest none more {slots} v keep h = elim (Bool-cases (left == 0)) [
  | inl last ↦ subst (AreSlots (suc left)) (some_inj (rw last at h)) (ground arith, (v, tt))
  | inr other ↦ cc (rw other at h)
]
after_token-AreSlots left slot rest (some comma) more {slots} v keep h =
    elim (Bool-cases (left == 0)) [
      | inl last ↦ cc (rw last at h)
      | inr other ↦
          let (s, e, e1) = >>=-eq-some (more (drop (comma + 1) rest)) _ (rw other at h) in
          let (n, vs) = keep _ s e in subst (AreSlots (suc left)) (some_inj e1) (ap suc n, (v, vs))
    ]

-- The loop gives as many slots as it was asked for, each of them a slot that can be sent.
decode_from-AreSlots :
    (left : ℕ) (rest : Bytes) (slots : SlotState)
    → decode_from left rest ≡ some slots
    → AreSlots left slots
unfolding decode_from
decode_from-AreSlots zero rest slots e = subst (AreSlots 0) (some_inj e) (refl, tt)
decode_from-AreSlots (suc left) rest slots e =
    let (slot, decoded, e1) = >>=-eq-some (decode_slot _) _ e in
    after_token-AreSlots left slot rest _ (decode_from left) (decode_slot-IsSlot _ decoded)
      (decode_from-AreSlots left) e1

-- What `DecodeSlots` accepts, from any peer and whatever the text, is exactly 19 slots, each of them
-- empty or with the nonempty name of a plugin and a number from 1 to 2^32 - 1.
pub decode_slots_sound :
    (value : Bytes) (slots : SlotState)
    → decode_slots value ≡ some slots
    → (length slots ≡ slot_count) × Every IsSlot slots
unfolding decode_slots
decode_slots_sound value slots e = decode_from-AreSlots slot_count value slots e
