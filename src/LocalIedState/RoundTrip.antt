-- ===== src/LocalIedState/RoundTrip.antt =====
-- `EncodeLocalIEDState`, and then `DecodeLocalIEDState`, of src/LocalIEDState.cpp.
use iedsync_together.Prelude.{
  ◌≡◌, ◌∙◌, List, [], ◌∷◌, ◌++◌, Option, none, some, length, map, arith, Every, Lacks, append_assoc,
  append-nil,
}
use iedsync_together.Text.{codes, starts_with}
use iedsync_together.Text.Search.{starts_with-append}
use iedsync_together.Text.Number.{Fmt}
use iedsync_together.Text.Split.{split}
use iedsync_together.Text.Split.Joined.{split-alone, split-first}
use iedsync_together.FormIdentity.Slots.{SlotState, slot_count, encode_slots}
use iedsync_together.FormIdentity.Slots.RoundTrip.{IsSlot, decode_slots-encode}
use iedsync_together.FormIdentity.Slots.Plain.{encode_slots-Lacks}
use iedsync_together.LocalIedState.{
  Floats, CapturedIedObject, LocalIedState, header, encode_object, encode_objects,
  encode_local_ied_state, decode_line, decode_lines, Progress, decode_local_ied_state,
}
use iedsync_together.LocalIedState.Lines.{
  IsCapturedIedObject, round_object, encode_object-Lacks, decode_object-encode,
}

module _ ⦃fl : Floats⦄ where
  -- 19 slots that can be sent, and objects that can be sent.
  pub record IsLocalIedState (state : LocalIedState) : Type 0 where
    pub slots_length : length state.slots ≡ slot_count
    pub slots_ok : Every IsSlot state.slots
    pub objects_ok : Every IsCapturedIedObject state.objects

  -- The state with every number of an object rounded to six decimals.
  abbrev pub round_state : LocalIedState → LocalIedState
  round_state state = record state { objects = map round_object state.objects }

module _ ⦃f : Fmt⦄ ⦃fl : Floats⦄ where
  slots_line-Lacks : (slots : SlotState) → Lacks b'\n' (codes "S|" ++ encode_slots slots)
  slots_line-Lacks slots = (λ e. ground arith, (λ e. ground arith, encode_slots-Lacks slots))

  decode_line-object :
      (o : CapturedIedObject) (slots : Option SlotState) (objects : List CapturedIedObject)
      → IsCapturedIedObject o
      → decode_line (encode_object o) (slots, objects)
        ≡ some (slots, objects ++ (round_object o ∷ []))
  unfolding decode_line
  decode_line-object o slots objects v =
      let decoded = decode_object-encode o v in unfold encode_object starts_with in rw decoded

  decode_lines-objects :
      (os : List CapturedIedObject) (slots : Option SlotState) (objects : List CapturedIedObject)
      → Every IsCapturedIedObject os
      → decode_lines (split (encode_objects os) b'\n') (slots, objects)
        ≡ some (slots, objects ++ map round_object os)
  unfolding decode_lines encode_objects
  decode_lines-objects [] slots objects h =
      rw (split-alone b'\n' [] tt) (unfold decode_line in rw append-nil)
  decode_lines-objects (o ∷ os) slots objects (v, vs) =
      rw
        (
          split-first b'\n' (encode_object o) (encode_objects os) (encode_object-Lacks o),
          decode_line-object o slots objects v,
        )
        (decode_lines-objects os slots (objects ++ (round_object o ∷ [])) vs ∙ rw append_assoc)

  decode_line-slots :
      (slots : SlotState) (progress : Progress)
      → length slots ≡ slot_count
      → Every IsSlot slots
      → decode_line (codes "S|" ++ encode_slots slots) progress ≡ some (some slots, progress.1)
  unfolding decode_line starts_with
  decode_line-slots slots (old, objects) n h = rw (decode_slots-encode slots n h)

  -- A state whose numbers fit their types is read back from its text: `DecodeLocalIEDState` accepts
  -- what `EncodeLocalIEDState` writes, and gives the same slots and the same objects in the same
  -- order, with their floating-point numbers rounded to six decimals.
  pub decode_local_ied_state-encode :
      (state : LocalIedState)
      → IsLocalIedState state
      → decode_local_ied_state (encode_local_ied_state state) ≡ some (round_state state)
  unfolding decode_local_ied_state encode_local_ied_state
  decode_local_ied_state-encode state v =
      rw
        (
          starts_with-append header
              (codes "S|" ++ (encode_slots state.slots ++ b'\n' ∷ encode_objects state.objects)),
          split-first b'\n' (codes "S|" ++ encode_slots state.slots) (encode_objects state.objects)
              (slots_line-Lacks state.slots),
        )
        (unfold decode_lines in
          rw (
            decode_line-slots state.slots (none, []) v.slots_length v.slots_ok,
            decode_lines-objects state.objects (some state.slots) [] v.objects_ok,
          ))
