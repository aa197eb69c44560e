-- ===== src/Tests/Scenery.antt =====
-- A small scene: whole numbers as floating-point numbers, a shield on a player's back, and a script
-- engine that accepts every call.
use mathlib.Core.List.{Permᴰ}
use mathlib.Core.List.Permᴰ as Perm
use iedsync_together.Prelude.{
  ℕ, ◌+◌, ◌-◌, ◌*◌, ◌/◌, ◌≡◌, ◌≢◌, refl, Bool, true, false, not, ◌&&◌, List, [], ◌∷◌, ◌++◌, none,
  some, ltb, leb, ◌==◌, if◌then◌else◌, arith, Every-append, Every-map, Lacks, if-every, subst,
  some_inj,
}
use iedsync_together.Text.{Bytes, codes, find, slice}
use iedsync_together.Text.Search.{find_first, slice_front}
use iedsync_together.Text.Number.{value, is_digit}
use iedsync_together.Engine.{Form}
use iedsync_together.FormIdentity.Hex.RoundTrip.{IsByteText}
use iedsync_together.LocalIedState.{Floats, slot, CapturedIedObject, LocalIedState}
use iedsync_together.LocalIedState.Lines.{IsCapturedIedObject}
use iedsync_together.LocalIedState.RoundTrip.{IsLocalIedState}
use iedsync_together.Scene.{Arithmetic, Object, Tree, tree, leaf, child, Transform}
use iedsync_together.CaptureProbe.{Surroundings, Sorter, Probe, empty_state}
use iedsync_together.Renderer.Calls.{Vm}
use iedsync_together.Renderer.Apply.{Stage}
use iedsync_together.Strpm.{Adapter}
use iedsync_together.Strpm.Loading.{FullAdapter, Resolver}
use iedsync_together.Tests.Printing.{numerals}
use iedsync_together.CaptureProbe.Sendable.{IsTree, AreSurroundings}
use iedsync_together.FormIdentity.Forms.{IsFormData}
use iedsync_together.Tests.Data.{shield, shield_form, ann_form, worn, worn-IsSlot, engine}

pub digits_lack : (b n : ℕ) → is_digit b ≡ false → Lacks b (numerals.dec n)
digits_lack b n h = Every-map _ _ (λ c e. λ q. ground arith) _ (numerals.dec_digits n)

abbrev lacking : ℕ → Bytes → Bool
lacking b [] = true
lacking b (c ∷ cs) = not (c == b) && lacking b cs

pub text-Lacks : (b : ℕ) (s : Bytes) → lacking b s ≡ true → Lacks b s
text-Lacks b [] h = tt
text-Lacks b (c ∷ cs) h = (λ e. ground (arith, h, e), text-Lacks b cs (ground (arith, h)))

-- Whole numbers, printed with six zeros behind the point.
instance abbrev pub whole : Floats
whole = record {
  Float = ℕ;
  print_float = λ n. numerals.dec n ++ codes ".000000";
  stof = λ text. value 10 0 (slice text 0 (find text (codes ".")));
  rounded = λ n. n;
  print-no_bar = λ n.
      Every-append (λ c. c ≢ b'|') (numerals.dec n) (codes ".000000") (digits_lack b'|' n refl)
        (text-Lacks b'|' (codes ".000000") refl);
  print-no_line = λ n.
      Every-append (λ c. c ≢ b'\n') (numerals.dec n) (codes ".000000") (digits_lack b'\n' n refl)
        (text-Lacks b'\n' (codes ".000000") refl);
  stof-print = λ n.
      rw
        (
          find_first b'.' (numerals.dec n) (codes "000000") (digits_lack b'.' n refl),
          slice_front (numerals.dec n) (codes ".000000"),
        )
        (numerals.dec_value n);
}

pub no_difference : (x e : ℕ) → ltb 0 e ≡ true → ltb e ((x - x) + (x - x)) ≡ false
no_difference x e h = ground arith

pub not_less : (x y : ℕ) → ltb x y ≡ true → ltb y x ≡ false
not_less x y h = ground arith

-- The whole numbers that stand for the literals of the source: `0.0` is zero, `100.0` a hundred, and
-- any other is one.
abbrev pub whole_literal : Bytes → ℕ
whole_literal (a ∷ b ∷ c ∷ []) = 0
whole_literal (a ∷ b ∷ c ∷ d ∷ e ∷ []) = 100
whole_literal _ = 1

instance abbrev pub counting : Arithmetic
counting = record {
  less = ltb;
  difference = λ x y. (x - y) + (y - x);
  literal = whole_literal;
  times = ◌*◌;
  over = ◌/◌;
  round = λ x. x;
  same = ◌==◌;
  difference_self = no_difference;
  less_asym = not_less;
}

abbrev pub insert_object : CapturedIedObject → List CapturedIedObject → List CapturedIedObject
insert_object o [] = o ∷ []
insert_object o (p ∷ ps) =
    if leb o.form.local_form_id p.form.local_form_id then o ∷ p ∷ ps else p ∷ insert_object o ps

abbrev pub sort_objects : List CapturedIedObject → List CapturedIedObject
sort_objects [] = []
sort_objects (o ∷ os) = insert_object o (sort_objects os)

pub insert_object-Perm :
    (o : CapturedIedObject) (ps : List CapturedIedObject) → Permᴰ (o ∷ ps) (insert_object o ps)
insert_object-Perm o [] = Permᴰ.cons refl Permᴰ.nil
insert_object-Perm o (p ∷ ps) =
    if-every (Permᴰ (o ∷ p ∷ ps)) (leb o.form.local_form_id p.form.local_form_id) _ _
      (λ first. Perm.refl (o ∷ p ∷ ps))
      (λ later. Permᴰ.trans (Permᴰ.swap refl refl) (Permᴰ.cons refl (insert_object-Perm o ps)))

pub sort_objects-Perm : (os : List CapturedIedObject) → Permᴰ os (sort_objects os)
sort_objects-Perm [] = Permᴰ.nil
sort_objects-Perm (o ∷ os) =
    Permᴰ.trans (Permᴰ.cons refl (sort_objects-Perm os)) (insert_object-Perm o (sort_objects os))

instance abbrev pub by_number : Sorter
by_number = record { sort = sort_objects; sort-Perm = sort_objects-Perm }

abbrev below_256 : Bytes → Bool
below_256 [] = true
below_256 (c ∷ cs) = ltb c 256 && below_256 cs

pub bytes_ok : (s : Bytes) → below_256 s ≡ true → IsByteText s
bytes_ok [] h = tt
bytes_ok (c ∷ cs) h = ground (arith, bytes_ok cs)

-- The shield, as the scene of its wearer has it.
abbrev pub shield_object : CapturedIedObject
shield_object = record {
  kind = slot;
  form = shield;
  slot_index = some 0;
  visible = true;
  object_node = codes "OBJECT [0000000B]";
  attachment_node = codes "OBJECT R Back";
  anchor_node = codes "NPC";
  position = 1 ∷ 2 ∷ 3 ∷ [];
  rotation_matrix = 1 ∷ 0 ∷ 0 ∷ 0 ∷ 1 ∷ 0 ∷ 0 ∷ 0 ∷ 1 ∷ [];
  scale = 1;
}

pub shield_object-IsCapturedIedObject : IsCapturedIedObject shield_object
shield_object-IsCapturedIedObject = record {
  plugin_bytes = bytes_ok shield_object.form.plugin refl;
  id_le = omega arith;
  index_ok = omega arith;
  object_bytes = bytes_ok shield_object.object_node refl;
  attachment_bytes = bytes_ok shield_object.attachment_node refl;
  anchor_bytes = bytes_ok shield_object.anchor_node refl;
  position_3 = refl;
  rotation_9 = refl;
}

abbrev pub displays : LocalIedState
displays = record { slots = worn; objects = shield_object ∷ [] }

pub displays-IsLocalIedState : IsLocalIedState displays
displays-IsLocalIedState = record {
  slots_length = refl;
  slots_ok = worn-IsSlot;
  objects_ok = (shield_object-IsCapturedIedObject, tt);
}

abbrev pub accepting : Vm
accepting before c = true

-- An engine that carries out the first two calls and refuses the third.
abbrev pub failing : Vm
failing (first ∷ second ∷ before) c = false
failing _ c = true

abbrev pub stage : Vm → Stage
stage vm = record {
  engine = engine;
  is_player = λ actor. actor.is_player_ref;
  vm = some vm;
  has_tasks = true;
}

abbrev pub resolver : Resolver
resolver = record { version = 1; has_resolve = true; has_register = true; registers = true }

abbrev pub outgoing : Adapter
outgoing = record {
  running = true;
  has_send = true;
  latest_payload = [];
  pending = false;
  have_successful_send = false;
  last_failure = none;
  last_successful_send = 0;
}

abbrev pub adapter : ℕ → FullAdapter
adapter id = record {
  outgoing = outgoing;
  resolver = some resolver;
  listener_registered = true;
  listener = 1;
  local_connection_id = id;
  remote_states = [];
}

abbrev pub probe : Probe
probe = record {
  running = true;
  capture_in_flight = true;
  last_state = empty_state;
  last_payload = [];
  has_handler = true;
}

-- The root of the player, with the shield below it.
abbrev pub root_object : Object
root_object = record {
  address = 7;
  name = some (codes "NPC");
  parent_name = none;
  anchor_name = none;
  culled = false;
}

abbrev pub shown_shield : Object
shown_shield = record {
  address = 8;
  name = some (codes "OBJECT [0000000B]");
  parent_name = some (codes "OBJECT R Back");
  anchor_name = some (codes "NPC");
  culled = false;
}

abbrev pub player_tree : Tree
player_tree = tree root_object (child (tree shown_shield leaf) leaf)

abbrev pub at_rest : Transform
at_rest = record {
  rotate = 1 ∷ 0 ∷ 0 ∷ 0 ∷ 1 ∷ 0 ∷ 0 ∷ 0 ∷ 1 ∷ [];
  translate = 1 ∷ 2 ∷ 3 ∷ [];
  size = 1;
}

abbrev pub scenery : Surroundings
scenery = record {
  engine = engine;
  player_root = some player_tree;
  transforms = λ address. at_rest;
}

shield_form-IsFormData : IsFormData shield_form
shield_form-IsFormData = record {
  file_bytes = λ name e. subst IsByteText (some_inj e) (bytes_ok (codes "S.esm") refl);
  local_pos = omega arith;
  local_le = omega arith;
}

ann_form-IsFormData : IsFormData ann_form
ann_form-IsFormData = record {
  file_bytes = λ name e. cc;
  local_pos = omega arith;
  local_le = omega arith;
}

engine-IsFormData : (id : ℕ) (form : Form) → engine.lookup_by_id id ≡ some form → IsFormData form
engine-IsFormData id form =
    if-every (λ o. o ≡ some form → IsFormData form) (id == 11) _ _
      (λ first e. subst IsFormData (some_inj e) shield_form-IsFormData)
      (λ other.
        if-every (λ o. o ≡ some form → IsFormData form) (id == 0xFF000010) _ _
          (λ second e. subst IsFormData (some_inj e) ann_form-IsFormData) (λ unknown e. cc))

player_tree-IsTree : IsTree player_tree
unfolding IsTree
player_tree-IsTree = (
  record { name_bytes = bytes_ok (codes "NPC") refl; parent_bytes = tt; anchor_bytes = tt },
  (
    (
      record {
        name_bytes = bytes_ok (codes "OBJECT [0000000B]") refl;
        parent_bytes = bytes_ok (codes "OBJECT R Back") refl;
        anchor_bytes = bytes_ok (codes "NPC") refl;
      },
      tt,
    ),
    tt,
  ),
)

pub scenery-AreSurroundings : AreSurroundings scenery
scenery-AreSurroundings = record {
  forms_ok = engine-IsFormData;
  root_ok = λ root e. subst IsTree (some_inj e) player_tree-IsTree;
  translate_3 = λ a. refl;
  rotate_9 = λ a. refl;
}
