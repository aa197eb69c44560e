-- ===== src/SyncService/Capture/Sending.antt =====
-- What `OnLocalCapture` sends, and which transports `Start` starts.
use iedsync_together.Prelude.{
  ℕ, ◌+◌, ◌%◌, ◌^◌, ◌≡◌, refl, ap, Bool, true, false, not, ◌&&◌, ◌||◌, [], if◌then◌else◌, arith,
}
use iedsync_together.Text.Number.{Fmt}
use iedsync_together.Config.{Config}
use iedsync_together.FormIdentity.Slots.{SlotState}
use iedsync_together.FormIdentity.Slots.Equality.{equal_slots_iff}
use iedsync_together.Packet.{state_payload}
use iedsync_together.SyncService.{Service}
use iedsync_together.SyncService.Capture.{
  Moment, send_network_payload, is_changed, is_resend_due, take_slots, on_local_capture,
  start_transports,
}

-- The revision after the captured slots have been compared with the last ones.
abbrev pub next_revision : Service → SlotState → ℕ
next_revision service slots =
    if is_changed service slots then (service.revision + 1) % 2 ^ 64 else service.revision

take_slots_lem :
    (service : Service) (slots : SlotState)
    → ((take_slots service slots).local_slots ≡ slots)
      × ((take_slots service slots).has_local_slots ≡ true)
      × ((take_slots service slots).revision ≡ next_revision service slots)
unfolding take_slots is_changed
take_slots_lem service slots = ground (arith, equal_slots_iff slots service.local_slots)

goes_on : (c d : Bool) → (c || d) ≡ true → (not c && not d) ≡ false
goes_on c d h = ground arith

stops : (c d : Bool) → (c || d) ≡ false → (not c && not d) ≡ true
stops c d h = ground arith

module _ ⦃f : Fmt⦄ (moment : Moment) (service : Service) (slots : SlotState) where
  pub on_local_capture_sends :
      (is_changed service slots || is_resend_due moment service) ≡ true
      → let (service', effects) = on_local_capture moment service slots in
        (effects ≡ send_network_payload moment (state_payload (next_revision service slots) slots))
        × (service'.local_slots ≡ slots)
        × (service'.has_local_slots ≡ true)
        × (service'.revision ≡ next_revision service slots)
        × (service'.last_send ≡ moment.now)
  unfolding on_local_capture
  on_local_capture_sends h =
      let (same, has, revision) = take_slots_lem service slots in
      rw
        (
          goes_on (is_changed service slots) (is_resend_due moment service) h,
          ← revision,
          ap (state_payload (take_slots service slots).revision) same,
        )
        (refl, same, has, refl, refl)

  -- A capture that is not new and comes before a resend is due changes nothing and sends nothing.
  pub on_local_capture_quiet :
      (is_changed service slots || is_resend_due moment service) ≡ false
      → on_local_capture moment service slots ≡ (service, [])
  unfolding on_local_capture
  on_local_capture_quiet h = rw (stops (is_changed service slots) (is_resend_due moment service) h)

-- Where the other plugin is installed, UDP is never asked to start when STR did start, the network
-- has started exactly if a transport that was asked to start did, and it has not if the settings
-- disable it.
pub start_transports_one :
    (config : Config) (str_starts udp_starts : Bool)
    → let started = start_transports config true str_starts udp_starts in
      let str_started = started.asked_str && str_starts in
      ((started.asked_udp && str_started) ≡ false)
      × (started.network_started ≡ (str_started || (started.asked_udp && udp_starts)))
      × (config.network_enabled ≡ false → started.network_started ≡ false)
unfolding start_transports
start_transports_one config str_starts udp_starts = ground arith
