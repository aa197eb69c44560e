-- ===== src/Tests/Transport.antt =====
-- The transport over UDP at concrete inputs.
use iedsync_together.Prelude.{
  ℕ, ◌+◌, ◌%◌, ◌≡◌, ◌≢◌, ◌↔◌, inl, refl, true, false, [], ◌∷◌, ◌++◌, none, some, arith, Every,
  length, map,
}
use iedsync_together.Text.{Bytes, codes, rfind, starts_with}
use iedsync_together.Dict.{member, bytes_eq}
use iedsync_together.Packet.{build_packet, state_payload, read_field, gameplay_prefix}
use iedsync_together.SyncService.Remote.{parse_update}
use iedsync_together.SyncService.Remote.Delivery.{packet_of}
use iedsync_together.Udp.{address_to_string, deliver}
use iedsync_together.Udp.Auth.{
  auth_field, lower_hex, compute_hmac, remove_auth_field, sign_packet, authenticate_packet,
  mark_relayed, supplied_at,
}
use iedsync_together.Udp.Auth.Signatures.{authenticate_packet-sign_packet, authenticate_packet_iff}
use iedsync_together.Udp.Auth.Relays.{mark_relayed_keeps}
use iedsync_together.Udp.Peers.{touch_gameplay_peer, snapshot_destinations, is_excluded, addresses}
use iedsync_together.Udp.Peers.Destinations.{AllNew, snapshot_destinations_lem}
use iedsync_together.Udp.Receiver.{is_own, max_datagram_bytes, receive}
use iedsync_together.Udp.Peers.{discovery_prefix}
use iedsync_together.Packet.{gameplay_prefix}
use iedsync_together.Prelude.{◌≤◌, ◌⊎◌, subst, sym}
use iedsync_together.Udp.{Transport}
use iedsync_together.Udp.Sending.{is_unrelayed}
use iedsync_together.FormIdentity.Hex.{hex_encode}
use iedsync_together.FormIdentity.Slots.{encode_slots}
use iedsync_together.Text.{find, equal}
use iedsync_together.Udp.Receiver.Safe.{IsSent, IsOnlyHanded, receive_guarded, receive_throws}
use iedsync_together.Udp.Receiver.States.{receive_state, receive_relayed_state}
use iedsync_together.Tests.Printing.{numerals}
use iedsync_together.Tests.Data.{update, update-IsSendable, windows, transport, here, there, bert}

abbrev secret : Bytes
secret = codes "pw"

abbrev state : Bytes → Bytes
state relay = packet_of update relay []

abbrev digest_of : Bytes → Bytes
digest_of packet = lower_hex ((length packet + length secret) % 256 ∷ 77 ∷ [])

digest_made : (packet : Bytes) → compute_hmac secret packet ≡ some (digest_of packet)
unfolding compute_hmac
digest_made packet = refl

others_id : codes "7-F" ≢ codes "9-A"
others_id e = ground arith

abbrev fresh : Bytes
fresh = sign_packet secret (build_packet (codes "7-F") (codes "Ann") (state_payload 3 update.slots))

abbrev signed : Bytes → Bytes
signed relay = sign_packet secret (state relay)

signed-length : (length (signed (codes "0")) ≡ 112) × (length (signed (codes "1")) ≡ 112)
unfolding sign_packet compute_hmac remove_auth_field rfind find starts_with lower_hex encode_slots
    hex_encode
signed-length = (refl, refl)

short_signed : length (signed (codes "0")) ≤ max_datagram_bytes
short_signed = subst (λ n. n ≤ max_datagram_bytes) (sym signed-length.0) (omega arith)

short_marked : length (signed (codes "1")) ≤ max_datagram_bytes
short_marked = subst (λ n. n ≤ max_datagram_bytes) (sym signed-length.1) (omega arith)

receive_state_example :
    (receive (transport false) 200 (codes "Bert") fresh here
      ≡ some (touch_gameplay_peer (transport false) 200 fresh here, deliver fresh ∷ []))
    × (parse_update fresh ≡ some update)
receive_state_example =
    receive_state (transport false) 200 (codes "Bert") here update (digest_of (state (codes "0")))
      update-IsSendable others_id refl (digest_made (state (codes "0"))) short_signed

receive_relayed_state_example :
    (receive (transport true) 200 (codes "Bert") (signed (codes "1")) here
      ≡ some (
        touch_gameplay_peer (transport true) 200 (signed (codes "1")) here,
        deliver (signed (codes "1")) ∷ [],
      ))
    × (parse_update (signed (codes "1")) ≡ some update)
receive_relayed_state_example =
    receive_relayed_state (transport true) 200 (codes "Bert") here update
      (digest_of (state (codes "1"))) update-IsSendable others_id (digest_made (state (codes "1")))
      short_marked

authenticate_packet-sign_packet_example :
    authenticate_packet secret (sign_packet secret (codes "IEDST|v1|id=4")) ≡ true
authenticate_packet-sign_packet_example =
    authenticate_packet-sign_packet secret (codes "IEDST|v1|id=4")
      (digest_of (remove_auth_field (codes "IEDST|v1|id=4")))
      (digest_made (remove_auth_field (codes "IEDST|v1|id=4")))

authenticate_packet_iff_example : (authenticate_packet secret (codes "a|auth=05") ≡ true) ↔ (
    (position : ℕ) × ((rfind (codes "a|auth=05") auth_field ≡ some position)
      × (compute_hmac secret (remove_auth_field (codes "a|auth=05"))
          ≡ some (supplied_at (codes "a|auth=05") position))))
authenticate_packet_iff_example = authenticate_packet_iff secret (codes "a|auth=05") refl (
  omega arith,
  (
    omega arith,
    (
      omega arith,
      (omega arith, (omega arith, (omega arith, (omega arith, (omega arith, (omega arith, tt)))))),
    ),
  ),
)

mark_relayed_keeps_example :
    (relayed : Bytes) × ((mark_relayed secret (state (codes "0") ++ []) ≡ some relayed)
      × ((parse_update relayed ≡ some update)
          × ((read_field relayed (codes "relay") ≡ some (codes "1"))
              × (authenticate_packet secret relayed ≡ true))))
mark_relayed_keeps_example =
    mark_relayed_keeps update secret [] (digest_of (state (codes "1"))) update-IsSendable (inl refl)
      (digest_made (state (codes "1")))

snapshot_destinations_lem_example :
    Every
      (λ peer. is_excluded (some here) peer ≡ false)
      (snapshot_destinations (transport true) (some here))
    × (AllNew [] (snapshot_destinations (transport true) (some here))
        × Every
            (λ peer.
              is_excluded (some here) peer ≡ false
              → member
                  (address_to_string peer)
                  (map address_to_string (snapshot_destinations (transport true) (some here)))
                ≡ true)
            ((there ∷ []) ++ addresses ((codes "k", bert) ∷ [])))
snapshot_destinations_lem_example = snapshot_destinations_lem (transport true) (some here)

receive_guarded_example :
    ((touch_gameplay_peer (transport false) 200 fresh here ≡ transport false)
      × ((deliver fresh ∷ []) ≡ []))
    ⊎ ((length fresh ≤ max_datagram_bytes)
        × (authenticate_packet secret fresh ≡ true)
        × (((starts_with fresh discovery_prefix ≡ true) × Every IsSent (deliver fresh ∷ []))
            ⊎ ((starts_with fresh gameplay_prefix ≡ true)
                × (is_own (transport false) fresh ≡ false)
                × Every (IsOnlyHanded fresh) (deliver fresh ∷ []))))
receive_guarded_example =
    receive_guarded (transport false) 200 (codes "Bert") fresh here receive_state_example.0

abbrev open_relay : Transport
open_relay = record (transport true) { shared_secret = [] }

receive_throws_example :
    receive open_relay 200 (codes "Bert") (codes "IEDST|v1|auth=" ++ codes "0") here ≡ none
receive_throws_example =
    receive_throws open_relay 200 (codes "Bert") (codes "0") here refl refl
      ((λ e. ground arith), tt) (omega arith)
      (unfold is_unrelayed read_field find starts_with equal in refl)
      (unfold is_own read_field find starts_with equal in refl)
