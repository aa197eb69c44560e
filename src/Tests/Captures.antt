-- ===== src/Tests/Captures.antt =====
-- A capture in one game and its arrival in another, at concrete inputs.
use iedsync_together.Prelude.{
  ◌≤◌, ◌≡◌, ◌+◌, ◌%◌, refl, ap, sym, subst, true, false, [], ◌∷◌, some, arith, map, length,
}
use iedsync_together.Text.{Bytes, codes, equal, rfind, find, starts_with}
use iedsync_together.Dict.{lookup, bytes_eq}
use iedsync_together.FormIdentity.Hex.{hex_encode}
use iedsync_together.FormIdentity.Slots.{encode_slots, equal_slots, equal_slot}
use iedsync_together.Packet.{build_packet, state_payload}
use iedsync_together.SyncService.{Service}
use iedsync_together.SyncService.Remote.{Update, restart, snapshot_of}
use iedsync_together.SyncService.Remote.Delivery.{IsSendable, packet_of}
use iedsync_together.SyncService.Capture.{
  Moment, is_changed, is_resend_due, take_slots, send_network_payload, on_local_capture,
}
use iedsync_together.SyncService.Capture.Sending.{next_revision}
use iedsync_together.SyncService.Capture.Arrival.{
  put_udp, captured_update, IsTaken, on_local_capture_arrives,
}
use iedsync_together.Udp.{Transport, tx}
use iedsync_together.Udp.Auth.{lower_hex, compute_hmac, remove_auth_field, sign_packet}
use iedsync_together.Udp.Sending.{send_destinations, send}
use iedsync_together.Udp.Receiver.{max_datagram_bytes}
use iedsync_together.Tests.Printing.{numerals}
use iedsync_together.Tests.Data.{worn, worn-IsSlot, windows, transport, here, service, world}

abbrev late : Moment
late = record { now = 9000; str_running = false; udp_running = true }

abbrev sender : Transport
sender = record (transport false) { instance_id = codes "7-F" }

abbrev other : Service
other = record service { snapshots = [] }

abbrev captured : Update
captured = record { instance_id = codes "7-F"; sender = codes "Ann"; slots = worn; revision = 4 }

same_revision : next_revision service worn ≡ 4
unfolding is_changed equal_slots equal_slot equal
same_revision = refl

given : put_udp (on_local_capture late service worn).1 ≡ some (state_payload 4 worn)
unfolding on_local_capture is_changed is_resend_due take_slots send_network_payload equal_slots
    equal_slot equal
given = refl

captured-IsSendable : IsSendable captured
captured-IsSendable = record {
  id_plain = (refl, (refl, (refl, tt)));
  id_ne_nil = λ e. ground arith;
  name_bytes = (omega arith, (omega arith, (omega arith, tt)));
  name_ne_nil = λ e. ground arith;
  slots_ok = (refl, worn-IsSlot);
  revision_le = omega arith;
}

abbrev packet : Bytes
packet = packet_of captured (codes "0") []

abbrev sent_packet : Bytes
sent_packet =
    sign_packet (codes "pw") (build_packet (codes "7-F") (codes "Ann") (state_payload 4 worn))

abbrev digest : Bytes
digest = lower_hex ((length packet + 2) % 256 ∷ 77 ∷ [])

digest_made : compute_hmac (codes "pw") packet ≡ some digest
unfolding compute_hmac
digest_made = refl

signed-length : length (sign_packet (codes "pw") packet) ≡ 112
unfolding sign_packet compute_hmac remove_auth_field rfind find starts_with lower_hex encode_slots
    hex_encode
signed-length = refl

short : length (sign_packet (codes "pw") packet) ≤ max_datagram_bytes
short = subst (λ n. n ≤ max_datagram_bytes) (sym signed-length) (omega arith)

fresh : (restart captured (snapshot_of (codes "7-F") other.snapshots)).revision ≤ 4
unfolding restart snapshot_of lookup equal
fresh = omega arith

as_captured : captured ≡ captured_update service sender (codes "Ann") worn
as_captured = ap (λ r. record captured { revision = r }) (sym same_revision)

on_local_capture_arrives_example :
    (send sender (codes "Ann") (state_payload 4 worn)
      ≡ map (tx sent_packet) (send_destinations sender))
    × IsTaken sender
        (transport false)
        200
        (codes "Ann")
        (codes "Bert")
        here
        world
        service
        other
        worn
        sent_packet
on_local_capture_arrives_example =
    on_local_capture_arrives sender (transport false) 200 (codes "Ann") (codes "Bert") here world
      service other worn late (state_payload 4 worn) digest given refl refl
      (subst IsSendable as_captured captured-IsSendable) (λ e. ground arith) refl refl
      (subst (λ u. compute_hmac (codes "pw") (packet_of u (codes "0") []) ≡ some digest) as_captured
        digest_made)
      (subst
        (λ u. length (sign_packet (codes "pw") (packet_of u (codes "0") [])) ≤ max_datagram_bytes)
        as_captured short)
      (subst
        (λ (u : Update).
          (restart u (snapshot_of u.instance_id other.snapshots)).revision ≤ u.revision)
        as_captured fresh)
