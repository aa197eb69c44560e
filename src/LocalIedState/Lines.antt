-- ===== src/LocalIedState/Lines.antt =====
-- One object's line, printed and read by src/LocalIEDState.cpp.
use iedsync_together.Prelude.{
  ℕ, suc, ◌^◌, ◌≤◌, ◌<◌, ◌≡◌, ◌≢◌, refl, ap, Bool, true, false, List, [], ◌∷◌, Option, none, some,
  if◌then◌else◌, length, map, arith, Every, Every-append, Every-map, Lacks, length-append,
}
use iedsync_together.Text.{Bytes, substr}
use iedsync_together.Text.Number.{Fmt, u32_max, is_digit, is_upper_hex}
use iedsync_together.Text.Split.{split, join}
use iedsync_together.Text.Split.Joined.{split-join}
use iedsync_together.FormIdentity.Hex.{hex_encode}
use iedsync_together.FormIdentity.Hex.RoundTrip.{IsByteText, hex_decode-encode, hex_encode-upper}
use iedsync_together.LocalIedState.{
  Floats, IedObjectKind, slot, custom, ℤ, pos, negsuc, CapturedIedObject, parse_int, slot_code,
  kind_code, flag, kind_of, slot_of, flag_of, parse_floats, object_fields, encode_object,
  decode_fields, decode_object,
}
use iedsync_together.LocalIedState.Numbers.{
  parse_unsigned-dec, parse_int-dec, parse_int-slot_code-none, parse_int-slot_code-some,
  slot_code-Lacks, digits-Lacks,
}

-- An index of a slot that an `int` can hold, or none.
abbrev pub IsIndex : Option ℕ → Type 0
IsIndex none = Unit {0}
IsIndex (some n) = n < 2 ^ 31

upper-digit : (b : ℕ) → is_upper_hex b ≡ false → is_digit b ≡ false
upper-digit b h = ground arith

module _ ⦃fl : Floats⦄ where
  -- The strings are of bytes, the numbers fit, and the arrays have their sizes.
  pub record IsCapturedIedObject (o : CapturedIedObject) : Type 0 where
    pub plugin_bytes : IsByteText o.form.plugin
    pub id_le : o.form.local_form_id ≤ u32_max
    pub index_ok : IsIndex o.slot_index
    pub object_bytes : IsByteText o.object_node
    pub attachment_bytes : IsByteText o.attachment_node
    pub anchor_bytes : IsByteText o.anchor_node
    pub position_3 : length o.position ≡ 3
    pub rotation_9 : length o.rotation_matrix ≡ 9

  -- The object with every number rounded to six decimals.
  unfoldable pub round_object : CapturedIedObject → CapturedIedObject
  round_object o = record o {
    position = map fl.rounded o.position;
    rotation_matrix = map fl.rounded o.rotation_matrix;
    scale = fl.rounded o.scale;
  }

  parse_floats-print :
      (xs : List fl.Float) → parse_floats (map fl.print_float xs) ≡ some (map fl.rounded xs)
  unfolding parse_floats
  parse_floats-print [] = refl
  parse_floats-print (x ∷ xs) = rw (fl.stof-print x, parse_floats-print xs)

  prints-Every :
      (P : Bytes → Type 0)
      → ((x : fl.Float) → P (fl.print_float x))
      → (xs : List fl.Float) → Every P (map fl.print_float xs)
  prints-Every P p [] = tt
  prints-Every P p (x ∷ xs) = (p x, prints-Every P p xs)

  length-map : (g : fl.Float → Bytes) (xs : List fl.Float) → length (map g xs) ≡ length xs
  length-map g [] = refl
  length-map g (x ∷ xs) = ap suc (length-map g xs)

module _ ⦃f : Fmt⦄ ⦃fl : Floats⦄ where
  kind_code_lem :
      (k : IedObjectKind) → (z : ℤ) × (parse_int (kind_code k) ≡ some z) × (kind_of z ≡ k)
  kind_code_lem slot = (pos 0, parse_int-dec 0 (omega arith), refl)
  kind_code_lem custom = (pos 1, parse_int-dec 1 (omega arith), refl)

  slot_code_lem :
      (o : Option ℕ) → IsIndex o → (z : ℤ) × (parse_int (slot_code o) ≡ some z) × (slot_of z ≡ o)
  slot_code_lem none h = (negsuc 0, parse_int-slot_code-none, refl)
  slot_code_lem (some n) h = (pos n, parse_int-slot_code-some n h, refl)

  flag_lem : (b : Bool) → (z : ℤ) × (parse_int (flag b) ≡ some z) × (flag_of z ≡ b)
  flag_lem true = (pos 1, parse_int-dec 1 (omega arith), refl)
  flag_lem false = (pos 0, parse_int-dec 0 (omega arith), refl)

  decode_fields-position :
      (o : CapturedIedObject) (p : List fl.Float)
      → length p ≡ 3
      → IsCapturedIedObject o
      → decode_fields (object_fields (record o { position = p }))
        ≡ some (round_object (record o { position = p }))
  unfolding decode_fields object_fields round_object
  decode_fields-position o [] n v = absurd (omega arith)
  decode_fields-position o (x ∷ []) n v = absurd (omega arith)
  decode_fields-position o (x ∷ y ∷ []) n v = absurd (omega arith)
  decode_fields-position o (x ∷ y ∷ z ∷ w ∷ p) n v = absurd (omega arith)
  decode_fields-position o (x ∷ y ∷ z ∷ []) n v =
      let (kind, read_kind, kind_eq) = kind_code_lem o.kind in
      let (index, read_index, index_eq) = slot_code_lem o.slot_index v.index_ok in
      let (visible, read_visible, visible_eq) = flag_lem o.visible in
      rw
        (
          read_kind,
          read_index,
          read_visible,
          parse_unsigned-dec u32_max o.form.local_form_id v.id_le,
          hex_decode-encode o.form.plugin v.plugin_bytes,
          hex_decode-encode o.object_node v.object_bytes,
          hex_decode-encode o.attachment_node v.attachment_bytes,
          hex_decode-encode o.anchor_node v.anchor_bytes,
          parse_floats-print (x ∷ y ∷ z ∷ []),
          fl.stof-print o.scale,
          parse_floats-print o.rotation_matrix,
          kind_eq,
          index_eq,
          visible_eq,
        )
        refl

  length-object_fields :
      (o : CapturedIedObject) → IsCapturedIedObject o → length (object_fields o) ≡ 21
  unfolding object_fields
  length-object_fields o v = rw (
    length-append (map fl.print_float o.position)
        (fl.print_float o.scale ∷ map fl.print_float o.rotation_matrix),
    length-map fl.print_float o.position,
    length-map fl.print_float o.rotation_matrix,
    v.position_3,
    v.rotation_9,
  )

  hex-Lacks : (b : ℕ) → is_upper_hex b ≡ false → (s : Bytes) → Lacks b (hex_encode s)
  hex-Lacks b h s = Every-map _ _ (λ c e. λ q. ground arith) _ (hex_encode-upper s)

  kind_code-Lacks : (b : ℕ) → is_digit b ≡ false → (k : IedObjectKind) → Lacks b (kind_code k)
  kind_code-Lacks b h slot = digits-Lacks b h _ (f.dec_digits 0)
  kind_code-Lacks b h custom = digits-Lacks b h _ (f.dec_digits 1)

  object_fields-Lacks :
      (b : ℕ)
      → is_upper_hex b ≡ false
      → b ≢ b'-'
      → ((x : fl.Float) → Lacks b (fl.print_float x))
      → (o : CapturedIedObject) → Every (Lacks b) (object_fields o)
  unfolding object_fields
  object_fields-Lacks b h ne p o =
      let no_digit = upper-digit b h in
      (
        kind_code-Lacks b no_digit o.kind,
        (
          slot_code-Lacks b no_digit ne o.slot_index,
          (
            hex-Lacks b h o.form.plugin,
            (
              digits-Lacks b no_digit _ (f.dec_digits o.form.local_form_id),
              (
                digits-Lacks b no_digit _ (f.dec_digits (if o.visible then 1 else 0)),
                (
                  hex-Lacks b h o.object_node,
                  (
                    hex-Lacks b h o.attachment_node,
                    (
                      hex-Lacks b h o.anchor_node,
                      Every-append (Lacks b) (map fl.print_float o.position) _
                          (prints-Every (Lacks b) p o.position)
                          (p o.scale, prints-Every (Lacks b) p o.rotation_matrix),
                    ),
                  ),
                ),
              ),
            ),
          ),
        ),
      )

  join-Lacks : (b d : ℕ) → d ≢ b → (ps : List Bytes) → Every (Lacks b) ps → Lacks b (join d ps)
  unfolding join
  join-Lacks b d ne [] h = tt
  join-Lacks b d ne (p ∷ []) (h, hs) = h
  join-Lacks b d ne (p ∷ q ∷ ps) (h, hs) = Every-append _ p _ h (ne, join-Lacks b d ne (q ∷ ps) hs)

  pub encode_object-Lacks : (o : CapturedIedObject) → Lacks b'\n' (encode_object o)
  unfolding encode_object
  encode_object-Lacks o = (
    λ e. ground arith,
    (
      λ e. ground arith,
      join-Lacks b'\n' b'|' (λ e. ground arith) (object_fields o)
          (object_fields-Lacks b'\n' refl (λ e. ground arith) fl.print-no_line o),
    ),
  )

  pub decode_object-encode :
      (o : CapturedIedObject)
      → IsCapturedIedObject o
      → decode_object (substr (encode_object o) 2) ≡ some (round_object o)
  unfolding decode_object encode_object
  decode_object-encode o v =
      rw (fields_back, length-object_fields o v)
        (decode_fields-position o o.position v.position_3 v)
    where
      fields_back : split (join b'|' (object_fields o)) b'|' ≡ object_fields o
      fields_back =
          unfold object_fields in
          split-join b'|' _ _ (object_fields-Lacks b'|' refl (λ e. ground arith) fl.print-no_bar o)
