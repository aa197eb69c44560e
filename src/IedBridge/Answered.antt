-- ===== src/IedBridge/Answered.antt =====
-- About the answers to a capture, and the call of the callback.
use iedsync_together.Prelude.{
  ℕ, ◌+◌, ◌≤◌, ◌<◌, ◌≡◌, ap, ◌∙◌, ◌↔◌, ==_iff, true, List, [], ◌∷◌, some, ◌==◌, get_elem?, length,
  arith, Bool-cases, inl, inr, ◌⊎◌,
}
use iedsync_together.Engine.{Engine}
use iedsync_together.FormIdentity.Slots.{slot_count}
use iedsync_together.IedBridge.Flags.{
  open_slots, open_slots_none, all_completed, set-true-get_elem?, get_elem?-set-true, set-true_self,
  mentions, in_range, none_set,
}
use iedsync_together.IedBridge.Gathering.{
  IsValid, new_request-IsValid, complete-IsValid, complete_all-calls, unfinished,
}
use iedsync_together.IedBridge.{
  CaptureRequest, new_request, is_completed, mark, complete, complete_all,
}

module _ (engine : Engine) where
  -- `i` is completed afterwards exactly if it was, or is the slot that was completed.
  complete_marks :
      (request : CaptureRequest) (slot form_id i : ℕ)
      → i < length request.completed
      → (slot == i) ≡ true
      → get_elem? (complete engine request slot form_id).0.completed i ≡ some true
  unfolding complete mark
  complete_marks request slot form_id i lt e =
      rw ((==_iff slot i).0 e) (elim (Bool-cases (is_completed request i)) [
        | inl done ↦ rw done (was_completed done lt)
        | inr open_slot ↦ rw open_slot (set-true_self request.completed i lt)
      ])
    where
      was_completed :
          is_completed request i ≡ true
          → i < length request.completed
          → get_elem? request.completed i ≡ some true
      was_completed h lt =
          let (b, e) = in_range request.completed i lt in
          e ∙ ap some (unfold is_completed in rw (e, is_completed) at h)

  complete_keeps :
      (request : CaptureRequest) (slot form_id i : ℕ)
      → get_elem? request.completed i ≡ some true
      → get_elem? (complete engine request slot form_id).0.completed i ≡ some true
  unfolding complete
  complete_keeps request slot form_id i h = elim (Bool-cases (is_completed request slot)) [
    | inl done ↦ rw done h
    | inr open_slot ↦ rw open_slot (unfold mark in get_elem?-set-true request.completed slot i h)
  ]

  complete_only :
      (request : CaptureRequest) (slot form_id i : ℕ)
      → get_elem? (complete engine request slot form_id).0.completed i ≡ some true
      → (get_elem? request.completed i ≡ some true) ⊎ (slot ≡ i)
  unfolding complete
  complete_only request slot form_id i h = elim (Bool-cases (is_completed request slot)) [
    | inl done ↦ inl (rw done at h)
    | inr open_slot ↦ set-true-get_elem? request.completed slot i (unfold mark in rw open_slot at h)
  ]

  complete_all-keeps :
      (events : List (ℕ × ℕ)) (request : CaptureRequest) (i : ℕ)
      → get_elem? request.completed i ≡ some true
      → get_elem? (complete_all engine request events).0.completed i ≡ some true
  unfolding complete_all
  complete_all-keeps [] request i h = h
  complete_all-keeps ((slot, form_id) ∷ events) request i h =
      complete_all-keeps events _ i (complete_keeps request slot form_id i h)

  complete_all_marks :
      (events : List (ℕ × ℕ)) (request : CaptureRequest) (i : ℕ)
      → IsValid request
      → i < slot_count
      → mentions i events ≡ true
      → get_elem? (complete_all engine request events).0.completed i ≡ some true
  unfolding complete_all
  complete_all_marks [] request i v lt h = cc
  complete_all_marks ((slot, form_id) ∷ events) request i v lt h = elim (Bool-cases (slot == i)) [
    | inl here ↦
        complete_all-keeps events _ i
          (complete_marks request slot form_id i (omega (arith, v.all_slots)) here)
    | inr there ↦
        complete_all_marks events _ i (complete-IsValid engine request slot form_id v) lt
          (rw there at h)
  ]

  complete_all_only :
      (events : List (ℕ × ℕ)) (request : CaptureRequest) (i : ℕ)
      → get_elem? (complete_all engine request events).0.completed i ≡ some true
      → (get_elem? request.completed i ≡ some true) ⊎ (mentions i events ≡ true)
  unfolding complete_all
  complete_all_only [] request i h = inl h
  complete_all_only ((slot, form_id) ∷ events) request i h = elim (complete_all_only events _ i h) [
    | inl before ↦ elim (complete_only request slot form_id i before) [
      | inl old ↦ inl old
      | inr e ↦ inr (ground (arith, ==_iff slot i))
    ]
    | inr later ↦ inr (ground arith)
  ]

  -- Of a capture of the 19 slots the callback is called at most once, whatever the answers are and in
  -- whatever order and however often they come; and it is called exactly if every slot has an answer.
  pub called_once :
      (events : List (ℕ × ℕ))
      → let fired = (complete_all engine new_request events).1 in
        (length fired ≤ 1)
        × ((length fired ≡ 1) ↔ ((i : ℕ) → i < slot_count → mentions i events ≡ true))
  unfolding new_request
  called_once events =
      let (v, count) = complete_all-calls engine events new_request new_request-IsValid in
      (omega arith, (answered v count, called v count))
    where
      answered :
          IsValid (complete_all engine new_request events).0
          → length (complete_all engine new_request events).1
              + unfinished engine (complete_all engine new_request events).0
            ≡ 1
          → length (complete_all engine new_request events).1 ≡ 1
          → (i : ℕ) → i < slot_count
          → mentions i events ≡ true
      answered v count one i lt =
          let done : open_slots (complete_all engine new_request events).0.completed ≡ 0 =
            ground (arith, v.counted) in
          elim (complete_all_only events new_request i
            (all_completed _ i done (omega (arith, v.all_slots)))) [
              | inl before ↦ absurd (none_set slot_count i before)
              | inr m ↦ m
            ]

      called :
          IsValid (complete_all engine new_request events).0
          → length (complete_all engine new_request events).1
              + unfinished engine (complete_all engine new_request events).0
            ≡ 1
          → ((i : ℕ) → i < slot_count → mentions i events ≡ true)
          → length (complete_all engine new_request events).1 ≡ 1
      called v count all =
          let done = open_slots_none (complete_all engine new_request events).0.completed (λ i lt.
            complete_all_marks events new_request i new_request-IsValid (omega (arith, v.all_slots))
              (all i (omega (arith, v.all_slots)))) in
          ground (arith, v.counted, done)
