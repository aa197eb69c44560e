-- ===== src/Udp/Receiver.antt =====
-- `ReceiverLoop`: what one received datagram comes to.
pub mod Guards
pub mod States
pub mod Safe
use iedsync_together.Prelude.{
  ℕ, ◌≡◌, refl, Bool, true, false, not, ◌&&◌, ◌||◌, List, [], ◌∷◌, ◌++◌, Option, none, some, ◌==◌,
  if◌then◌else◌, ltb, length,
}
use iedsync_together.Text.{Bytes, codes, starts_with, equal, is_empty}
use iedsync_together.Text.Number.{Fmt}
use iedsync_together.Packet.{gameplay_prefix, read_field}
use iedsync_together.Udp.{Windows, Endpoint, Transport, Action, deliver}
use iedsync_together.Udp.Auth.{authenticate_packet}
use iedsync_together.Udp.Peers.{discovery_prefix, handle_discovery, touch_gameplay_peer}
use iedsync_together.Udp.Sending.{relay_gameplay_packet}

-- `id && *id == _instanceID`.
unfoldable pub is_own : Transport → Bytes → Bool
is_own t packet = elim (read_field packet (codes "id")) [
  | none ↦ false
  | some id ↦ equal id t.instance_id
]

-- `buffer.size() - 1`: of a longer datagram `recvfrom` gives an error, and it is lost.
abbrev pub max_datagram_bytes : ℕ
max_datagram_bytes = 8191

module _ ⦃w : Windows⦄ ⦃f : Fmt⦄ where
  -- A gameplay packet that passed the checks. `none` is an exception that leaves the thread.
  unfoldable pub accept_gameplay :
      Transport → ℕ → Bytes → Endpoint → Option (Transport × List Action)
  accept_gameplay t now packet source =
      let touched = touch_gameplay_peer t now packet source in
      elim (relay_gameplay_packet touched packet source) [
        | none ↦ none
        | some relayed ↦ some (touched, relayed ++ (deliver packet ∷ []))
      ]

  -- A round of the loop that `recvfrom` ends: the time, the local player's name, the datagram as it was
  -- sent and its source.
  unfoldable pub receive :
      Transport → ℕ → Bytes → Bytes → Endpoint → Option (Transport × List Action)
  receive t now player_name packet source =
      let discovery_packet = starts_with packet discovery_prefix in
      let gameplay_packet = starts_with packet gameplay_prefix in
      if ltb max_datagram_bytes (length packet)
        || is_empty packet
        || (not discovery_packet && not gameplay_packet)
        || not (authenticate_packet t.shared_secret packet)
      then some (t, [])
      else elim (handle_discovery t now player_name packet source) [
        | some answered ↦ some answered
        | none ↦
            if gameplay_packet && is_own t packet
            then some (t, [])
            else accept_gameplay t now packet source
      ]
