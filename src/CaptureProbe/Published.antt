-- ===== src/CaptureProbe/Published.antt =====
-- Captures of src/LocalCaptureProbe.cpp, one after another.
use iedsync_together.Prelude.{
  ◌≡◌, refl, ap, true, false, List, [], ◌∷◌, Option, none, some, if◌then◌else◌, Bool-cases, inl,
  inr,
}
use iedsync_together.Text.{Bytes, equal}
use iedsync_together.Text.Search.{equal_iff}
use iedsync_together.Text.Number.{Fmt}
use iedsync_together.FormIdentity.Slots.{SlotState}
use iedsync_together.LocalIedState.{Floats, LocalIedState, encode_local_ied_state}
use iedsync_together.Scene.{Arithmetic}
use iedsync_together.CaptureProbe.{Surroundings, Sorter, Probe, gather_state, complete_capture}

abbrev pub joined {ℓ} : {A : Type ℓ} → Option A → List A → List A
joined none more = more
joined (some a) more = a ∷ more

module _ ⦃f : Fmt⦄ ⦃fl : Floats⦄ ⦃fa : Arithmetic⦄ ⦃order : Sorter⦄ where
  -- Captures in a row, each with what it finds and the slots it is given, and what they publish.
  unfoldable pub complete_captures :
      Probe → List (Surroundings × SlotState) → Probe × List (LocalIedState × Bytes)
  complete_captures p [] = (p, [])
  complete_captures p ((around, slots) ∷ captures) =
      let (p1, published) = complete_capture around p slots in
      let (p2, more) = complete_captures p1 captures in (p2, joined published more)

  abbrev pub payload_of : Surroundings → SlotState → Bytes
  payload_of around slots = encode_local_ied_state (gather_state around slots)

  -- The states whose text differs from the text before.
  unfoldable pub changes : Bytes → List (Surroundings × SlotState) → List (LocalIedState × Bytes)
  changes last [] = []
  changes last ((around, slots) ∷ captures) =
      let more = changes (payload_of around slots) captures in
      if equal (payload_of around slots) last
      then more
      else (gather_state around slots, payload_of around slots) ∷ more

  abbrev pub last_of : Bytes → List (Surroundings × SlotState) → Bytes
  last_of last [] = last
  last_of last ((around, slots) ∷ captures) = last_of (payload_of around slots) captures

  complete_capture-changed :
      (around : Surroundings) (p : Probe) (slots : SlotState)
      → equal (payload_of around slots) p.last_payload ≡ false
      → p.has_handler ≡ true
      → complete_capture around p slots ≡ (
        record p {
          last_state = gather_state around slots;
          last_payload = payload_of around slots;
          capture_in_flight = false;
        },
        some (gather_state around slots, payload_of around slots),
      )
  unfolding complete_capture
  complete_capture-changed around p slots changed handler = rw (complete_capture, changed, handler)

  complete_capture-same :
      (around : Surroundings) (p : Probe) (slots : SlotState)
      → equal (payload_of around slots) p.last_payload ≡ true
      → complete_capture around p slots ≡ (record p { capture_in_flight = false }, none)
  unfolding complete_capture
  complete_capture-same around p slots same = rw (complete_capture, same)

  -- A probe with a handler publishes of a run of captures exactly the states whose text differs from
  -- that of the capture before, in their order and each with its text; it remembers the text of the
  -- last capture.
  pub complete_captures-changes :
      (p : Probe) (captures : List (Surroundings × SlotState))
      → p.has_handler ≡ true
      → ((complete_captures p captures).1 ≡ changes p.last_payload captures)
        × ((complete_captures p captures).0.last_payload ≡ last_of p.last_payload captures)
  unfolding complete_captures changes
  complete_captures-changes p [] handler = (refl, refl)
  complete_captures-changes p ((around, slots) ∷ captures) handler =
      elim (Bool-cases (equal (payload_of around slots) p.last_payload)) [
        | inl same ↦
            rw
              (
                complete_capture-same around p slots same,
                same,
                (equal_iff (payload_of around slots) p.last_payload).0 same,
              )
              (complete_captures-changes (record p { capture_in_flight = false }) captures handler)
        | inr changed ↦
            let (published, last) =
              complete_captures-changes
                (record p {
                  last_state = gather_state around slots;
                  last_payload = payload_of around slots;
                  capture_in_flight = false;
                })
                captures handler in
            rw (complete_capture-changed around p slots changed handler, changed)
              (ap (◌∷◌ (gather_state around slots, payload_of around slots)) published, last)
      ]
