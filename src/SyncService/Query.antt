-- ===== src/SyncService/Query.antt =====
-- `QueryRemoteSlot`, which the other plugin calls through the bridge of
-- integration/ied-dev/IEDSyncTogetherBridge.h.
pub mod Answers
use iedsync_together.Prelude.{
  ℕ, ◌≡◌, refl, Bool, true, false, not, ◌&&◌, ◌||◌, List, [], ◌∷◌, Option, none, some, leb, ◌==◌,
  if◌then◌else◌, get_elem?,
}
use iedsync_together.Text.{Bytes}
use iedsync_together.Engine.{Engine, Form, lookup_actor}
use iedsync_together.FormIdentity.Slots.{FormIdentity, SlotState, slot_count}
use iedsync_together.FormIdentity.Forms.{resolve_form_identity}
use iedsync_together.ProxyResolver.{is_likely_remote_player_proxy}
use iedsync_together.SyncService.{Service, Snapshot}

-- `SlotOverrideResult`, and the form id that is put out.
pub data SlotOverride : Type 0 where
  not_remote : SlotOverride
  empty : SlotOverride
  form : ℕ → SlotOverride

-- `std::find_if`: the first snapshot that is bound to the actor.
unfoldable pub find_bound : ℕ → List (Bytes × Snapshot) → Option Snapshot
find_bound form_id [] = none
find_bound form_id ((id, snapshot) ∷ rest) =
    let later = find_bound form_id rest in
    if snapshot.last_proxy == form_id then some snapshot else later

-- The identity in a slot, if there is one.
unfoldable pub identity_at : SlotState → ℕ → Option FormIdentity
identity_at slots slot_index = elim (get_elem? slots slot_index) [ none ↦ none | some slot ↦ slot ]

unfoldable pub answer_identity : Engine → Option FormIdentity → SlotOverride
answer_identity engine none = empty
answer_identity engine (some identity) = elim (resolve_form_identity engine identity) [
  | none ↦ empty
  | some resolved ↦ form resolved.form_id
]

unfoldable pub query_remote_slot : Engine → Service → ℕ → ℕ → SlotOverride
query_remote_slot engine service actor_form_id slot_index =
    if leb slot_count slot_index
      || not (is_likely_remote_player_proxy (lookup_actor engine actor_form_id))
    then not_remote
    else elim (find_bound actor_form_id service.snapshots) [
      | none ↦ not_remote
      | some snapshot ↦ answer_identity engine (identity_at snapshot.slots slot_index)
    ]
