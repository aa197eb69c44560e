-- ===== src/Udp/Sending.antt =====
-- `Send`, `RelayGameplayPacket` and `Stop`.
use iedsync_together.Prelude.{
  Bool, true, false, not, ◌&&◌, ◌||◌, List, [], ◌∷◌, ◌++◌, Option, none, some, ◌>>=◌, if◌then◌else◌,
}
use iedsync_together.Text.{Bytes, codes, starts_with, is_empty, equal}
use iedsync_together.Text.Number.{Fmt}
use iedsync_together.Packet.{gameplay_prefix, read_field, build_packet}
use iedsync_together.Udp.{Windows, Endpoint, Transport, Action}
use iedsync_together.Udp.Auth.{sign_packet, mark_relayed}
use iedsync_together.Udp.Peers.{send_packet_to, snapshot_destinations}

unfoldable pub send_to_all : Transport → Bytes → List Endpoint → List Action
send_to_all t packet [] = []
send_to_all t packet (destination ∷ destinations) =
    send_packet_to t packet destination ++ send_to_all t packet destinations

abbrev pub none_left : List Endpoint → Bool
none_left [] = true
none_left (peer ∷ peers) = false

module _ ⦃w : Windows⦄ ⦃f : Fmt⦄ where
  -- To the peers, or to everybody if there is none and the settings allow it.
  unfoldable pub send_destinations : Transport → List Endpoint
  send_destinations t =
      let destinations = snapshot_destinations t none in
      if none_left destinations && t.config.auto_discovery then t.broadcast ∷ [] else destinations

  unfoldable pub send : Transport → Bytes → Bytes → List Action
  unfolding send_destinations
  send t player_name payload =
      if not t.running || not t.has_socket || is_empty payload
      then []
      else let packet =
          sign_packet t.shared_secret (build_packet t.instance_id player_name payload) in
        if is_empty packet then [] else send_to_all t packet (send_destinations t)

  -- `!relay || *relay == "0"`.
  unfoldable pub is_unrelayed : Option Bytes → Bool
  is_unrelayed none = true
  is_unrelayed (some relay) = equal relay (codes "0")

  -- The early returns of the relay.
  unfoldable pub is_kept : Transport → Bytes → Bool
  is_kept t packet =
      not t.config.relay_mode
      || not (starts_with packet gameplay_prefix)
      || not (is_unrelayed (read_field packet (codes "relay")))

  unfoldable pub send_relayed : Transport → Bytes → Endpoint → List Action
  send_relayed t relayed source =
      if is_empty relayed then [] else send_to_all t relayed (snapshot_destinations t (some source))

  -- `none` is the exception that `MarkRelayed` throws.
  unfoldable pub relay_gameplay_packet : Transport → Bytes → Endpoint → Option (List Action)
  relay_gameplay_packet t packet source =
      if is_kept t packet
      then some []
      else mark_relayed t.shared_secret packet >>= λ relayed. some (send_relayed t relayed source)

unfoldable pub stop : Transport → Transport
stop t = if not t.running then t else record t {
  running = false;
  has_socket = false;
  peers = [];
  configured_peers = [];
  shared_secret = [];
}
