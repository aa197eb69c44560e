-- ===== src/SyncService/Capture.antt =====
-- `OnLocalCapture`, `SendNetworkPayload`, and the part of `Start` that chooses the transports.
pub mod Sending
pub mod Arrival
use iedsync_together.Prelude.{
  ℕ, zero, suc, ◌+◌, ◌-◌, ◌%◌, ◌^◌, ◌≡◌, refl, Bool, true, false, not, ◌&&◌, ◌||◌, List, [], ◌∷◌,
  ◌++◌, Option, none, some, leb, ◌==◌, if◌then◌else◌,
}
use iedsync_together.Text.{Bytes, codes}
use iedsync_together.Text.Number.{Fmt}
use iedsync_together.Config.{Config, TransportMode, str, auto, udp}
use iedsync_together.FormIdentity.Slots.{SlotState, equal_slots}
use iedsync_together.Packet.{state_payload}
use iedsync_together.SyncService.{Service, Effect, send_str, send_udp}

-- What a handler sees of the clock and of the transports.
pub record Moment : Type 0 where
  pub now : ℕ
  pub str_running : Bool
  pub udp_running : Bool

unfoldable pub send_network_payload : Moment → Bytes → List Effect
send_network_payload moment payload =
    if moment.str_running
    then send_str payload ∷ []
    else if moment.udp_running
    then send_udp payload ∷ []
    else []

-- `!_hasLocalSlots || slots != _localSlots`.
unfoldable pub is_changed : Service → SlotState → Bool
is_changed service slots =
    not service.has_local_slots || not (equal_slots slots service.local_slots)

unfoldable pub is_resend_due : Moment → Service → Bool
is_resend_due moment service =
    not service.has_local_slots || leb service.resend_interval_ms (moment.now - service.last_send)

-- The state that is sent, with its revision, a `std::uint64_t`.
unfoldable pub take_slots : Service → SlotState → Service
take_slots service slots =
    if is_changed service slots
    then record service {
      local_slots = slots;
      has_local_slots = true;
      revision = (service.revision + 1) % 2 ^ 64;
    }
    else service

unfoldable pub on_local_capture : ⦃f : Fmt⦄ → Moment → Service → SlotState → Service × List Effect
on_local_capture ⦃f⦄ moment service slots =
    if not (is_changed service slots) && not (is_resend_due moment service)
    then (service, [])
    else let taken = take_slots service slots in
      (
        record taken { last_send = moment.now },
        send_network_payload moment (state_payload taken.revision taken.local_slots),
      )

-- What `Start` comes to: whether each transport was asked to start, and whether one did.
pub record Started : Type 0 where
  pub running : Bool
  pub asked_str : Bool
  pub asked_udp : Bool
  pub network_started : Bool

abbrev pub is_udp : TransportMode → Bool
is_udp udp = true
is_udp _ = false

abbrev pub is_auto : TransportMode → Bool
is_auto auto = true
is_auto _ = false

-- `Start` on a service that does not run; the last two arguments are what the transports' own `Start`
-- give if they are called.
unfoldable pub start_transports : Config → Bool → Bool → Bool → Started
start_transports config is_installed str_starts udp_starts =
    if not is_installed
    then record { running = false; asked_str = false; asked_udp = false; network_started = false }
    else let ask_str = config.network_enabled && not (is_udp config.transport_mode) in
      let str_started = ask_str && str_starts in
      let wants_udp =
        is_udp config.transport_mode
        || (is_auto config.transport_mode && not str_started)
        || (config.udp_fallback && not str_started) in
      let ask_udp = config.network_enabled && wants_udp in
      record {
        running = true;
        asked_str = ask_str;
        asked_udp = ask_udp;
        network_started = if ask_udp then udp_starts else str_started;
      }
