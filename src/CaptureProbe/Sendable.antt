-- ===== src/CaptureProbe/Sendable.antt =====
-- The states that `CompleteCapture` of src/LocalCaptureProbe.cpp puts together.
use mathlib.Core.List.{Permᴰ}
use iedsync_together.Prelude.{
  ℕ, suc, ◌+◌, ◌<◌, ◌≤◌, ◌≡◌, refl, ap, ◌∙◌, List, [], ◌∷◌, Option, none, some, ◌==◌, length, map,
  arith, Every, Every-append, Every-map, Bool-cases, Option-cases, inl, inr, some_inj, subst, sym,
  if-every,
}
use iedsync_together.Text.Number.{u32_max}
use iedsync_together.Dict.{member, nat_eq}
use iedsync_together.Engine.{Form}
use iedsync_together.FormIdentity.Hex.RoundTrip.{IsByteText}
use iedsync_together.FormIdentity.Slots.{FormIdentity, SlotState, slot_count}
use iedsync_together.FormIdentity.Slots.RoundTrip.{IsIdentity, IsSlot}
use iedsync_together.FormIdentity.Forms.{
  make_form_identity, make_form_identity-IsIdentity, IsFormData,
}
use iedsync_together.LocalIedState.{Floats, CapturedIedObject}
use iedsync_together.LocalIedState.Lines.{IsIndex, IsCapturedIedObject}
use iedsync_together.LocalIedState.RoundTrip.{IsLocalIedState}
use iedsync_together.Scene.{
  Object, Tree, tree, Children, leaf, null_child, child, or_empty, parse_ied_object_form_id,
  Arithmetic,
}
use iedsync_together.CaptureProbe.{
  Surroundings, Sorter, find_slot, slotted_form, identity_or_none, make_captured_object,
  captured_object, quantize, appended, Visit, visit_ied_objects, visit_children,
  same_logical_object, unique_behind, unique_objects, gather_state,
}

-- Any predicate of elements goes over to a permutation.
Every-Perm : {A : Type 0} (P : A → Type 0) {xs ys : List A} → Permᴰ xs ys → Every P xs → Every P ys
Every-Perm P Permᴰ.nil h = h
Every-Perm P (Permᴰ.cons e perm) (p, h) = (subst P e p, Every-Perm P perm h)
Every-Perm P (Permᴰ.swap e₁ e₂) (p, (q, h)) = (subst P e₂ q, (subst P e₁ p, h))
Every-Perm P (Permᴰ.trans first second) h = Every-Perm P second (Every-Perm P first h)

module _ ⦃fl : Floats⦄ where
  -- What the engine keeps: forms as the identities need them, names of bytes, and transforms with
  -- nine and three numbers.
  pub record IsObject (object : Object) : Type 0 where
    pub name_bytes : IsByteText (or_empty object.name)
    pub parent_bytes : IsByteText (or_empty object.parent_name)
    pub anchor_bytes : IsByteText (or_empty object.anchor_name)

  unfoldable mutual
    pub IsTree : Tree → Type 0
    IsTree (tree object children) = IsObject object × AreTrees children

    pub AreTrees : Children → Type 0
    AreTrees leaf = Unit
    AreTrees (null_child more) = AreTrees more
    AreTrees (child t more) = IsTree t × AreTrees more

  pub record AreSurroundings (around : Surroundings) : Type 0 where
    pub forms_ok :
        (id : ℕ) (form : Form) → around.engine.lookup_by_id id ≡ some form → IsFormData form
    pub root_ok : (root : Tree) → around.player_root ≡ some root → IsTree root
    pub translate_3 : (a : ℕ) → length (around.transforms a).translate ≡ 3
    pub rotate_9 : (a : ℕ) → length (around.transforms a).rotate ≡ 9

-- The name of the object holds the id of a form of the game, and its identity is that of this form.
pub record IsIdentified ⦃fl : Floats⦄ (around : Surroundings) (o : CapturedIedObject) : Type 0 where
  pub form_id : ℕ
  pub named : parse_ied_object_form_id o.object_node ≡ some form_id
  pub identified : make_form_identity (around.engine.lookup_by_id form_id) ≡ some o.form

find_slot_lt :
    (i form_id : ℕ) (slotted : List ℕ) {n : ℕ}
    → find_slot i form_id slotted ≡ some n
    → n < i + length slotted
unfolding find_slot
find_slot_lt i form_id [] e = cc
find_slot_lt i form_id (s ∷ slotted) {n} e = elim (Bool-cases (s == form_id)) [
  | inl here ↦ let at = some_inj (rw here at e) in omega arith
  | inr other ↦ let below = find_slot_lt (suc i) form_id slotted (rw other at e) in omega arith
]

length-map : {A B : Type 0} (g : A → B) (xs : List A) → length (map g xs) ≡ length xs
length-map g [] = refl
length-map g (x ∷ xs) = ap suc (length-map g xs)

find_slot-IsIndex :
    (form_id : ℕ) (slotted : List ℕ)
    → length slotted ≡ slot_count
    → IsIndex (find_slot 0 form_id slotted)
find_slot-IsIndex form_id slotted n = elim (Option-cases (find_slot 0 form_id slotted)) [
  | inl none_found ↦ rw none_found tt
  | inr (i, found) ↦ let below = find_slot_lt 0 form_id slotted found in rw found (omega arith)
]

module _ ⦃fl : Floats⦄ ⦃fa : Arithmetic⦄ (around : Surroundings) (v : AreSurroundings around)
    (slotted : List ℕ) (n : length slotted ≡ slot_count) where
  -- An object that can be sent, and that has been identified.
  abbrev IsFound : CapturedIedObject → Type 0
  IsFound o = IsCapturedIedObject o × IsIdentified around o

  form-IsIdentity :
      (form_id : ℕ) {identity : FormIdentity}
      → make_form_identity (around.engine.lookup_by_id form_id) ≡ some identity
      → IsIdentity identity
  form-IsIdentity form_id {identity} e = elim (Option-cases (around.engine.lookup_by_id form_id)) [
    | inl gone ↦ unfold make_form_identity in cc (rw gone at e)
    | inr (form, found) ↦
        make_form_identity-IsIdentity form (v.forms_ok form_id form found) (rw found at e)
  ]

  identity_or_none-some :
      (form_id : ℕ) {identity : FormIdentity}
      → make_form_identity (around.engine.lookup_by_id form_id) ≡ some identity
      → identity_or_none around.engine form_id ≡ identity
  unfolding identity_or_none
  identity_or_none-some form_id e = rw (identity_or_none, e)

  made-IsCapturedIedObject :
      (object : Object) (form_id : ℕ) {identity : FormIdentity}
      → IsObject object
      → make_form_identity (around.engine.lookup_by_id form_id) ≡ some identity
      → IsCapturedIedObject
          (make_captured_object around object form_id (find_slot 0 form_id slotted))
  unfolding make_captured_object
  made-IsCapturedIedObject object form_id {identity} w e =
      let ok = form-IsIdentity form_id e in
      record {
        plugin_bytes =
            subst (λ i. IsByteText i.plugin) (sym (identity_or_none-some form_id e))
              ok.plugin_bytes;
        id_le =
            subst (λ i. i.local_form_id ≤ u32_max) (sym (identity_or_none-some form_id e)) ok.id_le;
        index_ok = find_slot-IsIndex form_id slotted n;
        object_bytes = w.name_bytes;
        attachment_bytes = w.parent_bytes;
        anchor_bytes = w.anchor_bytes;
        position_3 = length-map quantize _ ∙ v.translate_3 object.address;
        rotation_9 = length-map quantize _ ∙ v.rotate_9 object.address;
      }

  made-IsIdentified :
      (object : Object) (form_id : ℕ) {identity : FormIdentity}
      → parse_ied_object_form_id (or_empty object.name) ≡ some form_id
      → make_form_identity (around.engine.lookup_by_id form_id) ≡ some identity
      → IsIdentified around
          (make_captured_object around object form_id (find_slot 0 form_id slotted))
  unfolding make_captured_object
  made-IsIdentified object form_id named known = record {
    form_id = form_id;
    named = named;
    identified = known ∙ ap some (sym (identity_or_none-some form_id known));
  }

  captured-Every :
      (object : Object) (out : List CapturedIedObject)
      → IsObject object
      → Every IsFound out
      → Every IsFound (appended out (captured_object around slotted object))
  unfolding captured_object
  captured-Every object out w h =
      elim (Option-cases (parse_ied_object_form_id (or_empty object.name))) [
        | inl unnamed ↦ rw unnamed h
        | inr (form_id, named) ↦
            elim (Option-cases (make_form_identity (around.engine.lookup_by_id form_id))) [
              | inl unknown ↦ rw (named, unknown) h
              | inr (identity, known) ↦
                  rw (named, known)
                    (Every-append IsFound out _ h (
                      (
                        made-IsCapturedIedObject object form_id w known,
                        made-IsIdentified object form_id named known,
                      ),
                      tt,
                    ))
            ]
      ]

  mutual
    unfolding visit_ied_objects IsTree

    visit-Every :
        (t : Tree) (out : List CapturedIedObject) (visited : List ℕ)
        → IsTree t
        → Every IsFound out
        → Every IsFound (visit_ied_objects around slotted t (out, visited)).0
    visit-Every (tree object children) out visited (w, ws) h =
        if-every (λ (v : Visit). Every IsFound v.0) (member object.address visited) _ _ (λ seen. h)
          (λ new.
            visit_children-Every children _ (object.address ∷ visited) ws
              (captured-Every object out w h))

    visit_children-Every :
        (c : Children) (out : List CapturedIedObject) (visited : List ℕ)
        → AreTrees c
        → Every IsFound out
        → Every IsFound (visit_children around slotted c (out, visited)).0
    visit_children-Every leaf out visited w h = h
    visit_children-Every (null_child more) out visited w h =
        visit_children-Every more out visited w h
    visit_children-Every (child t more) out visited (w, ws) h =
        visit_children-Every more _ _ ws (visit-Every t out visited w h)

module _ ⦃fl : Floats⦄ ⦃fa : Arithmetic⦄ where
  unique_behind-Every :
      (P : CapturedIedObject → Type 0) (kept : CapturedIedObject) (os : List CapturedIedObject)
      → Every P os
      → Every P (unique_behind kept os)
  unfolding unique_behind
  unique_behind-Every P kept [] h = h
  unique_behind-Every P kept (o ∷ os) (p, h) = elim (Bool-cases (same_logical_object kept o)) [
    | inl same ↦ rw (unique_behind, same) (unique_behind-Every P kept os h)
    | inr other ↦ rw (unique_behind, other) (p, unique_behind-Every P o os h)
  ]

  unique-Every :
      (P : CapturedIedObject → Type 0) (os : List CapturedIedObject)
      → Every P os
      → Every P (unique_objects os)
  unfolding unique_objects
  unique-Every P [] h = h
  unique-Every P (o ∷ os) (p, h) = (p, unique_behind-Every P o os h)

module _ ⦃fl : Floats⦄ ⦃fa : Arithmetic⦄ ⦃order : Sorter⦄ where
  gathered-IsFound :
      (around : Surroundings) (v : AreSurroundings around) (slots : SlotState)
      (n : length slots ≡ slot_count)
      → Every
          (λ o. IsCapturedIedObject o × IsIdentified around o)
          (gather_state around slots).objects
  unfolding gather_state
  gathered-IsFound around v slots n =
      unique-Every (λ o. IsCapturedIedObject o × IsIdentified around o) _
        (Every-Perm (λ o. IsCapturedIedObject o × IsIdentified around o) (order.sort-Perm _)
          (visited_ok around.player_root refl))
    where
      slotted : List ℕ
      slotted = map (slotted_form around.engine) slots

      visited_ok :
          (found : Option Tree)
          → around.player_root ≡ found
          → Every
              (λ o. IsCapturedIedObject o × IsIdentified around o)
              (elim found [
                | none ↦ []
                | some root ↦ (visit_ied_objects around slotted root ([], [])).0
              ])
      visited_ok none e = tt
      visited_ok (some root) there =
          visit-Every around v slotted (length-map (slotted_form around.engine) slots ∙ n) root []
            [] (v.root_ok root there) tt

  -- Whatever the scene, of a state that a capture gathers from 19 slots that can be sent: it can itself
  -- be sent, its objects having numbers that fit and, as slots, an index below 2^31; and each of its
  -- objects has a name with the id of a form of the game, and the identity of that form. The engine's
  -- forms, names and transforms are assumed to be of their types.
  pub gather_state-IsLocalIedState :
      (around : Surroundings) (slots : SlotState)
      → AreSurroundings around
      → length slots ≡ slot_count
      → Every IsSlot slots
      → IsLocalIedState (gather_state around slots)
        × Every (IsIdentified around) (gather_state around slots).objects
  unfolding gather_state
  gather_state-IsLocalIedState around slots v n vs =
      let found = gathered-IsFound around v slots n in
      (
        record {
          slots_length = n;
          slots_ok = vs;
          objects_ok =
              Every-map (λ o. IsCapturedIedObject o × IsIdentified around o) IsCapturedIedObject
                (λ o h. h.0) _ found;
        },
        Every-map (λ o. IsCapturedIedObject o × IsIdentified around o) (IsIdentified around)
            (λ o h. h.1) _ found,
      )
