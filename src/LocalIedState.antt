-- ===== src/LocalIedState.antt =====
-- src/LocalIEDState.h and src/LocalIEDState.cpp: the state of the displays of the local player, and
-- the text in which the adapter of the plugin messages sends it. `std::from_chars` is written out;
-- the printing and reading of floating-point numbers is a library, a record of what is used of it.
pub mod Numbers
pub mod Lines
pub mod RoundTrip
pub mod Sound
use iedsync_together.Prelude.{
  ℕ, zero, suc, ◌-◌, ◌^◌, ◌≡◌, Bool, true, false, not, List, [], ◌∷◌, ◌++◌, Option, none, some, ltb,
  ◌==◌, if◌then◌else◌, length, drop, ◌>>=◌, map, Lacks,
}
use iedsync_together.Text.{Bytes, codes, starts_with, is_empty, substr}
use iedsync_together.Text.Number.{Fmt, value, u32_max}
use iedsync_together.Text.Split.{split, join}
use iedsync_together.FormIdentity.Hex.{hex_encode, hex_decode}
use iedsync_together.FormIdentity.Slots.{
  FormIdentity, SlotState, encode_slots, decode_slots, no_slots,
}

-- `float`: `fmt::format("{:.6f}", x)` prints neither a bar nor an end of line, and `std::stof`, whose
-- exceptions are `none`, reads what was printed as the number rounded to six decimals.
pub record Floats : Type 1 where
  pub Float : Type 0
  pub print_float : Float → Bytes
  pub stof : Bytes → Option Float
  pub rounded : Float → Float
  pub print-no_bar : (x : Float) → Lacks b'|' (print_float x)
  pub print-no_line : (x : Float) → Lacks b'\n' (print_float x)
  pub stof-print : (x : Float) → stof (print_float x) ≡ some (rounded x)

pub data IedObjectKind : Type 0 where
  slot : IedObjectKind
  custom : IedObjectKind

-- `int`.
pub data ℤ : Type 0 where
  pos : ℕ → ℤ
  negsuc : ℕ → ℤ

module _ ⦃fl : Floats⦄ where
  -- `position` has 3 and `rotation_matrix` 9 entries.
  pub record CapturedIedObject : Type 0 where
    pub kind : IedObjectKind
    pub form : FormIdentity
    pub slot_index : Option ℕ
    pub visible : Bool
    pub object_node : Bytes
    pub attachment_node : Bytes
    pub anchor_node : Bytes
    pub position : List fl.Float
    pub rotation_matrix : List fl.Float
    pub scale : fl.Float

  pub record LocalIedState : Type 0 where
    pub slots : SlotState
    pub objects : List CapturedIedObject

-- `kHeader`.
abbrev pub header : Bytes
header = codes "IEDST_LOCAL_STATE_V1\n"

-- `static_cast<int>` of a `std::uint32_t`.
unfoldable pub as_int : ℕ → ℤ
as_int n = if ltb n (2 ^ 31) then pos n else negsuc (u32_max - n)

-- `std::from_chars` on the whole text, into an unsigned and into a signed type.
unfoldable pub parse_unsigned : ℕ → Bytes → Option ℕ
parse_unsigned max text =
    if is_empty text then none else (value 10 0 text >>= λ n. if ltb max n then none else some n)

abbrev pub negated : ℕ → ℤ
negated zero = pos 0
negated (suc n) = negsuc n

unfoldable pub parse_int : Bytes → Option ℤ
unfolding parse_unsigned
parse_int [] = none
parse_int (c ∷ cs) =
    if c == b'-'
    then (parse_unsigned (2 ^ 31) cs >>= λ n. some (negated n))
    else (parse_unsigned (2 ^ 31 - 1) (c ∷ cs) >>= λ n. some (pos n))

abbrev pub kind_of : ℤ → IedObjectKind
kind_of (pos zero) = slot
kind_of (pos (suc n)) = custom
kind_of (negsuc n) = custom

abbrev pub slot_of : ℤ → Option ℕ
slot_of (pos n) = some n
slot_of (negsuc n) = none

abbrev pub flag_of : ℤ → Bool
flag_of (pos zero) = false
flag_of (pos (suc n)) = true
flag_of (negsuc n) = true

module _ ⦃f : Fmt⦄ where
  unfoldable pub print_int : ℤ → Bytes
  print_int (pos n) = f.dec n
  print_int (negsuc n) = b'-' ∷ f.dec (suc n)

  abbrev pub flag : Bool → Bytes
  flag b = f.dec (if b then 1 else 0)

  abbrev pub kind_code : IedObjectKind → Bytes
  kind_code slot = f.dec 0
  kind_code custom = f.dec 1

  unfoldable pub slot_code : Option ℕ → Bytes
  unfolding as_int print_int
  slot_code none = print_int (negsuc 0)
  slot_code (some n) = print_int (as_int n)

module _ ⦃f : Fmt⦄ ⦃fl : Floats⦄ where
  -- The values between the bars of an object's line.
  unfoldable pub object_fields : CapturedIedObject → List Bytes
  object_fields o =
      kind_code o.kind
      ∷ slot_code o.slot_index
      ∷ hex_encode o.form.plugin
      ∷ f.dec o.form.local_form_id
      ∷ flag o.visible
      ∷ hex_encode o.object_node
      ∷ hex_encode o.attachment_node
      ∷ hex_encode o.anchor_node
      ∷ (map fl.print_float o.position
          ++ fl.print_float o.scale ∷ map fl.print_float o.rotation_matrix)

  unfoldable pub encode_object : CapturedIedObject → Bytes
  unfolding object_fields
  encode_object o = codes "O|" ++ join b'|' (object_fields o)

  -- The loop over the objects.
  unfoldable pub encode_objects : List CapturedIedObject → Bytes
  encode_objects [] = []
  encode_objects (o ∷ os) = encode_object o ++ b'\n' ∷ encode_objects os

  unfoldable pub encode_local_ied_state : LocalIedState → Bytes
  encode_local_ied_state state =
      header ++ (codes "S|" ++ (encode_slots state.slots ++ b'\n' ∷ encode_objects state.objects))

module _ ⦃fl : Floats⦄ where
  unfoldable pub parse_floats : List Bytes → Option (List fl.Float)
  parse_floats [] = some []
  parse_floats (text ∷ texts) = fl.stof text >>= λ x. parse_floats texts >>= λ xs. some (x ∷ xs)

  -- The checks and conversions of the fields of an object, in their order.
  unfoldable pub decode_fields : List Bytes → Option CapturedIedObject
  decode_fields (f0 ∷ f1 ∷ f2 ∷ f3 ∷ f4 ∷ f5 ∷ f6 ∷ f7 ∷ f8 ∷ f9 ∷ f10 ∷ f11 ∷ rotation) = do
    kind ← parse_int f0
    index ← parse_int f1
    local_form_id ← parse_unsigned u32_max f3
    visible ← parse_int f4
    plugin ← hex_decode f2
    object_node ← hex_decode f5
    attachment_node ← hex_decode f6
    anchor_node ← hex_decode f7
    position ← parse_floats (f8 ∷ f9 ∷ f10 ∷ [])
    scale ← fl.stof f11
    rotation_matrix ← parse_floats rotation
    some (record {
      kind = kind_of kind;
      form = record { plugin = plugin; local_form_id = local_form_id };
      slot_index = slot_of index;
      visible = flag_of visible;
      object_node = object_node;
      attachment_node = attachment_node;
      anchor_node = anchor_node;
      position = position;
      rotation_matrix = rotation_matrix;
      scale = scale;
    })
  decode_fields _ = none

  unfoldable pub decode_object : Bytes → Option CapturedIedObject
  decode_object text =
      let fields = split text b'|' in if length fields == 21 then decode_fields fields else none

  -- The slots that were read, if any, and the objects.
  abbrev pub Progress : Type 0
  Progress = Option SlotState × List CapturedIedObject

  -- One round of the loop over the lines.
  unfoldable pub decode_line : Bytes → Progress → Option Progress
  decode_line line (slots, objects) =
      if is_empty line
      then some (slots, objects)
      else if starts_with line (codes "S|")
      then (decode_slots (substr line 2) >>= λ read. some (some read, objects))
      else if not (starts_with line (codes "O|"))
      then none
      else (decode_object (substr line 2) >>= λ o. some (slots, objects ++ (o ∷ [])))

  unfoldable pub decode_lines : List Bytes → Progress → Option Progress
  unfolding decode_line
  decode_lines [] progress = some progress
  decode_lines (line ∷ lines) progress = decode_line line progress >>= decode_lines lines

  abbrev pub finish : Progress → Option LocalIedState
  finish (none, objects) = none
  finish (some slots, objects) = some (record { slots = slots; objects = objects })

  unfoldable pub decode_local_ied_state : Bytes → Option LocalIedState
  decode_local_ied_state payload =
      if starts_with payload header
      then (decode_lines (split (drop (length header) payload) b'\n') (none, []) >>= finish)
      else none
