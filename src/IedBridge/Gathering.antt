-- ===== src/IedBridge/Gathering.antt =====
-- The count of the open slots in a capture, and the calls of the callback.
use iedsync_together.Prelude.{
  ℕ, ◌+◌, ◌≡◌, refl, ◌∙◌, true, false, List, [], ◌∷◌, Option, none, some, ◌==◌, if◌then◌else◌,
  get_elem?, length, length-set, arith, Bool-cases, inl, inr,
}
use iedsync_together.Engine.{Engine}
use iedsync_together.FormIdentity.Slots.{SlotState, slot_count}
use iedsync_together.FormIdentity.Forms.{make_form_identity}
use iedsync_together.IedBridge.Flags.{open_slots, open_slots-le, open_slots-set}
use iedsync_together.IedBridge.{
  CaptureRequest, new_request, is_completed, mark, complete, append_fired, complete_all,
}

pub record IsValid (request : CaptureRequest) : Type 0 where
  pub all_slots : length request.completed ≡ slot_count
  pub all_values : length request.slots ≡ slot_count
  pub counted : request.remaining ≡ open_slots request.completed

pub new_request-IsValid : IsValid new_request
unfolding new_request
new_request-IsValid = record { all_slots = refl; all_values = refl; counted = refl }

is_completed-get_elem? :
    (request : CaptureRequest) (slot : ℕ)
    → is_completed request slot ≡ false
    → get_elem? request.completed slot ≡ some false
unfolding is_completed
is_completed-get_elem? request slot h = ground arith

module _ (engine : Engine) where
  mark-remaining :
      (request : CaptureRequest) (slot form_id : ℕ)
      → IsValid request
      → is_completed request slot ≡ false
      → (mark engine request slot form_id).remaining + 1 ≡ request.remaining
  unfolding mark
  mark-remaining request slot form_id v h =
      let open_slot = is_completed-get_elem? request slot h in
      omega (
        arith,
        v.counted,
        v.all_slots,
        open_slots-set request.completed slot open_slot,
        open_slots-le request.completed,
      )

  mark-IsValid :
      (request : CaptureRequest) (slot form_id : ℕ)
      → IsValid request
      → is_completed request slot ≡ false
      → IsValid (mark engine request slot form_id)
  mark-IsValid request slot form_id v h =
      let less = mark-remaining request slot form_id v h in
      let one = open_slots-set request.completed slot (is_completed-get_elem? request slot h) in
      let value = make_form_identity (engine.lookup_by_id form_id) in
      record {
        all_slots = unfold mark in (length-set request.completed slot true ∙ v.all_slots);
        all_values =
            unfold mark in ground (arith, length-set request.slots slot value, v.all_values);
        counted = unfold mark in omega (arith, less, one, v.counted);
      }

  pub complete-IsValid :
      (request : CaptureRequest) (slot form_id : ℕ)
      → IsValid request
      → IsValid (complete engine request slot form_id).0
  unfolding complete
  complete-IsValid request slot form_id v = elim (Bool-cases (is_completed request slot)) [
    | inl done ↦ rw done v
    | inr open_slot ↦ rw open_slot (mark-IsValid request slot form_id v open_slot)
  ]

  -- The callback, counted as a number of calls.
  abbrev calls : Option SlotState → ℕ
  calls none = 0
  calls (some slots) = 1

  abbrev pub unfinished : CaptureRequest → ℕ
  unfinished request = if request.remaining == 0 then 0 else 1

  complete-calls :
      (request : CaptureRequest) (slot form_id : ℕ)
      → IsValid request
      → let (after, fired) = complete engine request slot form_id in
        calls fired + unfinished after ≡ unfinished request
  unfolding complete
  complete-calls request slot form_id v = elim (Bool-cases (is_completed request slot)) [
    | inl done ↦ rw done (omega arith)
    | inr open_slot ↦ rw open_slot (ground (arith, mark-remaining request slot form_id v open_slot))
  ]

  length-append_fired :
      (fired : Option SlotState) (more : List SlotState)
      → length (append_fired fired more) ≡ calls fired + length more
  unfolding append_fired
  length-append_fired none more = omega arith
  length-append_fired (some slots) more = omega arith

  pub complete_all-calls :
      (events : List (ℕ × ℕ)) (request : CaptureRequest)
      → IsValid request
      → let (last, fired) = complete_all engine request events in
        IsValid last × (length fired + unfinished last ≡ unfinished request)
  unfolding complete_all
  complete_all-calls [] request v = (v, omega arith)
  complete_all-calls ((slot, form_id) ∷ events) request v =
      let (request', fired) = complete engine request slot form_id in
      let (v', rest) =
        complete_all-calls events request' (complete-IsValid request slot form_id v) in
      let now = complete-calls request slot form_id v in
      (
        v',
        omega (arith, now, rest, length-append_fired fired (complete_all engine request' events).1),
      )
