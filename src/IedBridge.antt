-- ===== src/IedBridge.antt =====
-- src/IEDBridge.cpp: one request to Immersive Equipment Displays for each of the 19 slots, and the
-- answers, which come in any order, gathered into one call of the callback.
pub mod Flags
pub mod Gathering
pub mod Answered
use iedsync_together.Prelude.{
  ℕ, zero, suc, ◌+◌, ◌-◌, ◌%◌, ◌^◌, ◌≡◌, refl, Bool, true, false, not, ◌&&◌, ◌||◌, List, [], ◌∷◌,
  ◌++◌, Option, none, some, ◌==◌, if◌then◌else◌, get_elem?, set, replicate, ◌>>=◌,
}
use iedsync_together.Engine.{Engine, Actor}
use iedsync_together.FormIdentity.Slots.{SlotState, slot_count, no_slots}
use iedsync_together.FormIdentity.Forms.{make_form_identity}

-- `CaptureRequest`, but for its mutex, which makes a call of `Complete` one step, and the callback,
-- which is moved out when it is called.
pub record CaptureRequest : Type 0 where
  pub slots : SlotState
  pub completed : List Bool
  pub remaining : ℕ

pub new_request : CaptureRequest
new_request = record {
  slots = no_slots;
  completed = replicate slot_count false;
  remaining = slot_count;
}

-- `completed[slot]`. Only slots of the array are asked for.
is_completed : CaptureRequest → ℕ → Bool
is_completed request slot = elim (get_elem? request.completed slot) [ none ↦ true | some b ↦ b ]

mark : Engine → CaptureRequest → ℕ → ℕ → CaptureRequest
mark engine request slot form_id = record request {
  completed = set request.completed slot true;
  slots =
      if form_id == 0
      then request.slots
      else set request.slots slot (make_form_identity (engine.lookup_by_id form_id));
  remaining = (request.remaining + 2 ^ 64 - 1) % 2 ^ 64;
}

-- The request afterwards, and what the callback is called with, if it is called.
unfoldable pub complete : Engine → CaptureRequest → ℕ → ℕ → CaptureRequest × Option SlotState
unfolding is_completed mark
complete engine request slot form_id =
    if is_completed request slot
    then (request, none)
    else let marked = mark engine request slot form_id in
      (marked, if marked.remaining == 0 then some marked.slots else none)

-- What the script engine answers for a slot: the id of the form in it, or `0`. Without a task
-- interface the slot is completed as empty.
pub answer : Bool → Option ℕ → ℕ
answer has_tasks none = 0
answer has_tasks (some form_id) = if has_tasks then form_id else 0

append_fired : Option SlotState → List SlotState → List SlotState
append_fired none fired = fired
append_fired (some slots) fired = slots ∷ fired

-- A run of completions, each a slot and a form, and the calls of the callback in order.
unfoldable pub complete_all :
    Engine → CaptureRequest → List (ℕ × ℕ) → CaptureRequest × List SlotState
unfolding append_fired
complete_all engine request [] = (request, [])
complete_all engine request ((slot, form_id) ∷ events) =
    let (request', fired) = complete engine request slot form_id in
    let (last, more) = complete_all engine request' events in (last, append_fired fired more)

-- The slots from `slot` on that the script engine did not take are completed as empty at once. The
-- list says of each slot whether `DispatchStaticCall` took it.
refused : ℕ → List Bool → List (ℕ × ℕ)
refused slot [] = []
refused slot (true ∷ dispatched) = refused (suc slot) dispatched
refused slot (false ∷ dispatched) = (slot, 0) ∷ refused (suc slot) dispatched

-- What `CapturePlayerSlots` and `SetActorBlocked` find around them.
pub record Surroundings : Type 0 where
  pub has_player : Bool
  pub has_vm : Bool
  pub is_installed : Bool

-- `none` is the result `false`. The callback is a function of the code, never null.
unfoldable pub capture_player_slots :
    Engine → Surroundings → List Bool → Option (CaptureRequest × List SlotState)
unfolding refused complete_all complete new_request
capture_player_slots engine around dispatched =
    if not around.has_player || not around.has_vm || not around.is_installed
    then none
    else some (complete_all engine new_request (refused 0 dispatched))

-- The script call that `SetActorBlocked` makes: on whom, and whether to block.
pub record BlockCall : Type 0 where
  pub actor : ℕ
  pub blocked : Bool

unfoldable pub set_actor_blocked : Surroundings → Option Actor → Bool → Option BlockCall
set_actor_blocked around none blocked = none
set_actor_blocked around (some actor) blocked =
    if not around.has_vm || not around.is_installed
    then none
    else some (record { actor = actor.form_id; blocked = blocked })
