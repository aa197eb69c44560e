-- ===== src/FormIdentity/Slots/RoundTrip.antt =====
-- `EncodeSlots`, and then `DecodeSlots`.
use iedsync_together.Prelude.{
  ℕ, suc, ◌≤◌, ◌<◌, ◌≡◌, ◌≢◌, refl, ap, true, false, [], ◌∷◌, ◌++◌, Option, none, some,
  if◌then◌else◌, length, ◌>>=◌, Every, Every-append, Every-map, Lacks, arith, take_front, drop_past,
  append-nil, subst, ◌∙◌,
}
use iedsync_together.Text.{Bytes, codes, equal, find, is_empty}
use iedsync_together.Text.Search.{find_skip, find_here, find_first, find-none, slice_front}
use iedsync_together.Text.Number.{u32_max, Fmt, is_upper_hex}
use iedsync_together.Text.Number.Parse.{stoul-hex}
use iedsync_together.FormIdentity.Hex.{hex_encode}
use iedsync_together.FormIdentity.Hex.RoundTrip.{IsByteText, hex_decode-encode, hex_encode-upper}
use iedsync_together.FormIdentity.Slots.{
  FormIdentity, SlotState, slot_count, encode_slot, encode_more, encode_slots, decode_local_id,
  decode_identity, decode_slot, after_token, decode_from, decode_slots,
}

-- An identity that `MakeFormIdentity` can give: a plugin's name, and a number that fits its type.
pub record IsIdentity (identity : FormIdentity) : Type 0 where
  pub plugin_bytes : IsByteText identity.plugin
  pub plugin_ne_nil : identity.plugin ≢ []
  pub id_pos : 0 < identity.local_form_id
  pub id_le : identity.local_form_id ≤ u32_max

abbrev pub IsSlot : Option FormIdentity → Type 0
IsSlot none = Unit
IsSlot (some identity) = IsIdentity identity

upper-Lacks :
    (b : ℕ)
    → is_upper_hex b ≡ false
    → (s : Bytes) → Every (λ c. is_upper_hex c ≡ true) s
    → Lacks b s
upper-Lacks b h = Every-map _ _ (λ c e. λ q. ground arith)

not_dash :
    (a b : Bytes) → (is_empty (a ++ b':' ∷ b) ≡ false) × (equal (a ++ b':' ∷ b) (codes "-") ≡ false)
unfolding equal
not_dash [] b = (refl, refl)
not_dash (c ∷ []) b = (refl, ground arith)
not_dash (c ∷ d ∷ a) b = (refl, ground arith)

decode_from_last :
    (token : Bytes) {slot : Option FormIdentity}
    → Lacks b',' token
    → decode_slot token ≡ some slot
    → decode_from 1 token ≡ some (slot ∷ [])
unfolding decode_from after_token
decode_from_last token h e = rw (find-none b',' [] token h, e)

after_token_comma :
    (left : ℕ) (slot : Option FormIdentity) (token rest : Bytes) (more : Bytes → Option SlotState)
    → after_token (suc left) slot (token ++ b',' ∷ rest) (some (length token)) more
      ≡ (more rest >>= λ slots. some (slot ∷ slots))
unfolding after_token
after_token_comma left slot token rest more = rw (drop_past token rest b',') (ground arith)

decode_from_step :
    (left : ℕ) (token rest : Bytes) {slot : Option FormIdentity}
    → Lacks b',' token
    → decode_slot token ≡ some slot
    → decode_from (suc (suc left)) (token ++ b',' ∷ rest)
      ≡ (decode_from (suc left) rest >>= λ slots. some (slot ∷ slots))
unfolding decode_from
decode_from_step left token rest {slot} h e =
    rw (find_first b',' token rest h, slice_front token (b',' ∷ rest), e)
      (after_token_comma left slot token rest (decode_from (suc left)))

module _ ⦃f : Fmt⦄ where
  decode_local_id-hex : (n : ℕ) → 0 < n → n ≤ u32_max → decode_local_id (f.hex n) ≡ some n
  unfolding decode_local_id
  decode_local_id-hex n pos le = rw (stoul-hex n le) (ground arith)

  decode_identity-encode :
      (identity : FormIdentity)
      → IsIdentity identity
      → decode_identity (encode_slot (some identity)) (length (hex_encode identity.plugin))
        ≡ some identity
  unfolding decode_identity encode_slot
  decode_identity-encode identity v =
      rw
        (
          take_front (hex_encode identity.plugin) (b':' ∷ f.hex identity.local_form_id),
          drop_past (hex_encode identity.plugin) (f.hex identity.local_form_id) b':',
          hex_decode-encode identity.plugin v.plugin_bytes,
          decode_local_id-hex identity.local_form_id v.id_pos v.id_le,
        )
        (has_plugin identity v.plugin_ne_nil)
    where
      has_plugin :
          (i : FormIdentity) → i.plugin ≢ [] → (if is_empty i.plugin then none else some i) ≡ some i
      has_plugin i ne = ground arith

  -- The separator is the first colon: the plugin's code has none.
  find-encode_slot :
      (identity : FormIdentity)
      → find (encode_slot (some identity)) (codes ":") ≡ some (length (hex_encode identity.plugin))
  unfolding encode_slot
  find-encode_slot identity =
      rw
        (
          find_skip b':' [] (hex_encode identity.plugin) (b':' ∷ f.hex identity.local_form_id)
              (upper-Lacks b':' refl _ (hex_encode-upper identity.plugin)),
          find_here b':' [] (f.hex identity.local_form_id),
        )
        (ap some (omega arith))

  decode_slot-encode :
      (slot : Option FormIdentity) → IsSlot slot → decode_slot (encode_slot slot) ≡ some slot
  unfolding decode_slot
  decode_slot-encode none v = unfold encode_slot equal in refl
  decode_slot-encode (some identity) v =
      rw (find-encode_slot identity, decode_identity-encode identity v)
        (let (full, other) = not_dash (hex_encode identity.plugin) (f.hex identity.local_form_id) in
          unfold encode_slot in rw (full, other))

  encode_slot-Lacks : (slot : Option FormIdentity) → Lacks b',' (encode_slot slot)
  unfolding encode_slot
  encode_slot-Lacks none = omega arith
  encode_slot-Lacks (some identity) =
      Every-append _ (hex_encode identity.plugin) _
        (upper-Lacks b',' refl _ (hex_encode-upper identity.plugin))
        (omega arith, upper-Lacks b',' refl _ (f.hex_digits identity.local_form_id))

  decode_from-encode :
      (slot : Option FormIdentity) (slots : SlotState)
      → IsSlot slot
      → Every IsSlot slots
      → decode_from (suc (length slots)) (encode_slot slot ++ encode_more slots)
        ≡ some (slot ∷ slots)
  unfolding encode_more
  decode_from-encode slot [] v vs =
      rw (append-nil (encode_slot slot))
        (decode_from_last (encode_slot slot) (encode_slot-Lacks slot) (decode_slot-encode slot v))
  decode_from-encode slot (next ∷ slots) v (w, vs) =
      decode_from_step (length slots) (encode_slot slot) (encode_slot next ++ encode_more slots)
        (encode_slot-Lacks slot) (decode_slot-encode slot v)
      ∙ rw (decode_from-encode next slots w vs)

  -- Slots that each are empty or hold an identity of a plugin survive the coding: `DecodeSlots`
  -- gives back the 19 slots that `EncodeSlots` was given.
  pub decode_slots-encode :
      (slots : SlotState)
      → length slots ≡ slot_count
      → Every IsSlot slots
      → decode_slots (encode_slots slots) ≡ some slots
  unfolding decode_slots encode_slots
  decode_slots-encode [] n vs = absurd (omega arith)
  decode_slots-encode (slot ∷ slots) n (v, vs) =
      subst (λ k. decode_from k (encode_slot slot ++ encode_more slots) ≡ some (slot ∷ slots)) n
        (decode_from-encode slot slots v vs)
