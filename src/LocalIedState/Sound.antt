-- ===== src/LocalIedState/Sound.antt =====
-- What `DecodeLocalIEDState` of src/LocalIEDState.cpp accepts.
use iedsync_together.Prelude.{
  ℕ, zero, suc, ◌-◌, ◌^◌, ◌≤◌, ◌≡◌, refl, ap, List, [], ◌∷◌, Option, none, some, ◌==◌, length,
  arith, Every, Every-append, Bool-cases, inl, inr, >>=-eq-some, some_inj, subst,
}
use iedsync_together.Text.{Bytes, codes, starts_with, is_empty, substr}
use iedsync_together.Text.Number.{value, u32_max}
use iedsync_together.Text.Split.{split}
use iedsync_together.FormIdentity.Hex.{hex_decode}
use iedsync_together.FormIdentity.Hex.RoundTrip.{hex_decode-IsByteText}
use iedsync_together.FormIdentity.Slots.{SlotState, slot_count, decode_slots}
use iedsync_together.FormIdentity.Slots.RoundTrip.{IsSlot}
use iedsync_together.FormIdentity.Slots.Sound.{decode_slots_sound}
use iedsync_together.LocalIedState.{
  Floats, ℤ, negated, CapturedIedObject, LocalIedState, parse_unsigned, parse_int, slot_of,
  parse_floats, decode_fields, decode_object, decode_line, decode_lines, finish, Progress,
  decode_local_ied_state, header,
}
use iedsync_together.LocalIedState.Lines.{IsIndex, IsCapturedIedObject}
use iedsync_together.LocalIedState.RoundTrip.{IsLocalIedState}

parse_unsigned_le : (max : ℕ) (text : Bytes) {n : ℕ} → parse_unsigned max text ≡ some n → n ≤ max
unfolding parse_unsigned
parse_unsigned_le max [] e = cc
parse_unsigned_le max (c ∷ cs) {n} e =
    let (m, _, h) = >>=-eq-some (value 10 0 (c ∷ cs)) _ e in ground (arith, h)

parse_int-IsIndex : (text : Bytes) {z : ℤ} → parse_int text ≡ some z → IsIndex (slot_of z)
unfolding parse_int
parse_int-IsIndex [] e = cc
parse_int-IsIndex (c ∷ cs) {z} e = elim (Bool-cases (c == b'-')) [
  | inl minus ↦
      let (n, _, h) = >>=-eq-some (parse_unsigned (2 ^ 31) cs) _ (rw minus at e) in
      subst (λ z. IsIndex (slot_of z)) (some_inj h) (negated-IsIndex n)
  | inr plus ↦
      let (n, read, h) = >>=-eq-some (parse_unsigned (2 ^ 31 - 1) (c ∷ cs)) _ (rw plus at e) in
      let le = parse_unsigned_le (2 ^ 31 - 1) (c ∷ cs) read in
      subst (λ z. IsIndex (slot_of z)) (some_inj h) (omega (arith, le))
]
  where
    negated-IsIndex : (n : ℕ) → IsIndex (slot_of (negated n))
    negated-IsIndex zero = omega arith
    negated-IsIndex (suc n) = tt

nine :
    {m n : ℕ}
    → m ≡ n
    → suc (suc (suc (suc (suc (suc (suc (suc (suc (suc (suc (suc n))))))))))) ≡ 21
    → m ≡ 9
nine e h = omega arith

module _ ⦃fl : Floats⦄ where
  parse_floats-length :
      (texts : List Bytes) {xs : List fl.Float}
      → parse_floats texts ≡ some xs
      → length xs ≡ length texts
  unfolding parse_floats
  parse_floats-length [] {xs} e = subst (λ xs. length xs ≡ 0) (some_inj e) refl
  parse_floats-length (t ∷ ts) {xs} e =
      let (y, _, h) = >>=-eq-some (fl.stof t) _ e in
      let (ys, read, h1) = >>=-eq-some (parse_floats ts) _ h in
      subst (λ xs. length xs ≡ suc (length ts)) (some_inj h1) (ap suc (parse_floats-length ts read))

  decode_fields-IsCapturedIedObject :
      (fields : List Bytes) {o : CapturedIedObject}
      → length fields ≡ 21
      → decode_fields fields ≡ some o
      → IsCapturedIedObject o
  unfolding decode_fields
  decode_fields-IsCapturedIedObject
        (f0 ∷ f1 ∷ f2 ∷ f3 ∷ f4 ∷ f5 ∷ f6 ∷ f7 ∷ f8 ∷ f9 ∷ f10 ∷ f11 ∷ rotation) {o} n e =
      let (kind, _, e0) = >>=-eq-some (parse_int f0) _ e in
      let (index, read_index, e1) = >>=-eq-some (parse_int f1) _ e0 in
      let (id, read_id, e2) = >>=-eq-some (parse_unsigned u32_max f3) _ e1 in
      let (visible, _, e3) = >>=-eq-some (parse_int f4) _ e2 in
      let (plugin, read_plugin, e4) = >>=-eq-some (hex_decode f2) _ e3 in
      let (object_node, read_object, e5) = >>=-eq-some (hex_decode f5) _ e4 in
      let (attachment, read_attachment, e6) = >>=-eq-some (hex_decode f6) _ e5 in
      let (anchor, read_anchor, e7) = >>=-eq-some (hex_decode f7) _ e6 in
      let (position, read_position, e8) = >>=-eq-some (parse_floats (f8 ∷ f9 ∷ f10 ∷ [])) _ e7 in
      let (scale, _, e9) = >>=-eq-some (fl.stof f11) _ e8 in
      let (matrix, read_matrix, e10) = >>=-eq-some (parse_floats rotation) _ e9 in
      subst IsCapturedIedObject (some_inj e10) (record {
        plugin_bytes = hex_decode-IsByteText f2 read_plugin;
        id_le = parse_unsigned_le u32_max f3 read_id;
        index_ok = parse_int-IsIndex f1 read_index;
        object_bytes = hex_decode-IsByteText f5 read_object;
        attachment_bytes = hex_decode-IsByteText f6 read_attachment;
        anchor_bytes = hex_decode-IsByteText f7 read_anchor;
        position_3 = parse_floats-length _ read_position;
        rotation_9 = nine (parse_floats-length rotation read_matrix) n;
      })
  decode_fields-IsCapturedIedObject _ n e = cc

  decode_object-IsCapturedIedObject :
      (text : Bytes) {o : CapturedIedObject} → decode_object text ≡ some o → IsCapturedIedObject o
  unfolding decode_object
  decode_object-IsCapturedIedObject text e = elim (Bool-cases (length (split text b'|') == 21)) [
    | inl full ↦
        decode_fields-IsCapturedIedObject (split text b'|') (ground (arith, full)) (rw full at e)
    | inr other ↦ cc (rw other at e)
  ]

  AreRead : Option SlotState → Type 0
  AreRead none = Unit
  AreRead (some slots) = (length slots ≡ slot_count) × Every IsSlot slots

  IsProgress : Progress → Type 0
  unfolding AreRead
  IsProgress (slots, objects) = AreRead slots × Every IsCapturedIedObject objects

  decode_line-IsProgress :
      (line : Bytes) (p : Progress) {q : Progress}
      → IsProgress p
      → decode_line line p ≡ some q
      → IsProgress q
  unfolding decode_line IsProgress AreRead
  decode_line-IsProgress line (slots, objects) (s, os) e = elim (Bool-cases (is_empty line)) [
    | inl empty ↦ subst IsProgress (some_inj (rw empty at e)) (s, os)
    | inr full ↦ elim (Bool-cases (starts_with line (codes "S|"))) [
      | inl of_slots ↦
          let (read, decoded, h) =
            >>=-eq-some (decode_slots (substr line 2)) _ (rw (full, of_slots) at e) in
          subst IsProgress (some_inj h) (decode_slots_sound _ read decoded, os)
      | inr no_slots ↦ elim (Bool-cases (starts_with line (codes "O|"))) [
        | inl of_object ↦
            let (o, decoded, h) =
              >>=-eq-some (decode_object (substr line 2)) _ (rw (full, no_slots, of_object) at e) in
            subst IsProgress (some_inj h) (
              s,
              Every-append _ objects (o ∷ []) os (decode_object-IsCapturedIedObject _ decoded, tt),
            )
        | inr unknown ↦ cc (rw (full, no_slots, unknown) at e)
      ]
    ]
  ]

  decode_lines-IsProgress :
      (lines : List Bytes) (p : Progress) {q : Progress}
      → IsProgress p
      → decode_lines lines p ≡ some q
      → IsProgress q
  unfolding decode_lines
  decode_lines-IsProgress [] p v e = subst IsProgress (some_inj e) v
  decode_lines-IsProgress (line ∷ lines) p v e =
      let (q, decoded, h) = >>=-eq-some (decode_line line p) _ e in
      decode_lines-IsProgress lines q (decode_line-IsProgress line p v decoded) h

  finish-IsLocalIedState :
      (p : Progress) {state : LocalIedState}
      → IsProgress p
      → finish p ≡ some state
      → IsLocalIedState state
  unfolding IsProgress AreRead
  finish-IsLocalIedState (none, objects) v e = cc
  finish-IsLocalIedState (some slots, objects) ((n, s), os) e =
      subst IsLocalIedState (some_inj e)
        (record { slots_length = n; slots_ok = s; objects_ok = os })

  -- Whatever the text, a state that `DecodeLocalIEDState` accepts can be sent again: it has 19 slots,
  -- each empty or of a plugin with a number from 1 to 2^32 - 1, and each of its objects has byte
  -- strings, a number below 2^32, no index or one below 2^31, and arrays of 3 and of 9 numbers.
  pub decode_local_ied_state_sound :
      (payload : Bytes) (state : LocalIedState)
      → decode_local_ied_state payload ≡ some state
      → IsLocalIedState state
  unfolding decode_local_ied_state
  decode_local_ied_state_sound payload state e = elim (Bool-cases (starts_with payload header)) [
    | inl known ↦
        let (p, decoded, h) = >>=-eq-some (decode_lines _ (none, [])) _ (rw known at e) in
        finish-IsLocalIedState p
          (decode_lines-IsProgress _ (none, []) (unfold IsProgress AreRead in (tt, tt)) decoded) h
    | inr foreign ↦ cc (rw foreign at e)
  ]
