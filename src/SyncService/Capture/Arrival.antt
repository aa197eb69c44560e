-- ===== src/SyncService/Capture/Arrival.antt =====
-- A capture of src/SyncService.cpp from one game to the service in another, over src/UdpTransport.cpp.
use iedsync_together.Prelude.{
  ℕ, ◌≤◌, ◌≡◌, ◌≢◌, sym, ap, ap₂, map, refl, true, subst, ◌∙◌, false, not, ◌||◌, List, [], ◌∷◌,
  Option, none, some, some_inj, Bool-cases, inl, inr, if-every, length, arith, if◌then◌else◌,
}
use iedsync_together.Text.{Bytes, codes, is_empty, starts_with}
use iedsync_together.Text.Number.{Fmt}
use iedsync_together.Dict.{lookup, bytes_eq}
use iedsync_together.FormIdentity.Slots.{SlotState}
use iedsync_together.Packet.{build_packet, state_payload}
use iedsync_together.ProxyResolver.{World}
use iedsync_together.SyncService.{Service, Effect, send_str, send_udp}
use iedsync_together.SyncService.Remote.{
  Update, parse_update, proxy_id, snapshot_of, restart, handle_packet,
}
use iedsync_together.SyncService.Remote.Delivery.{IsSendable, packet_of, handle_packet-parsed}
use iedsync_together.SyncService.Capture.{
  Moment, send_network_payload, is_changed, is_resend_due, on_local_capture,
}
use iedsync_together.SyncService.Capture.Sending.{
  next_revision, on_local_capture_sends, on_local_capture_quiet,
}
use iedsync_together.Udp.{Windows, Endpoint, Transport, Action, tx, deliver}
use iedsync_together.Udp.Auth.{compute_hmac, sign_packet}
use iedsync_together.Udp.Peers.{send_packet_to, touch_gameplay_peer}
use iedsync_together.Udp.Sending.{send_to_all, send_destinations, send}
use iedsync_together.Udp.Receiver.{max_datagram_bytes, receive}
use iedsync_together.Udp.Receiver.States.{receive_state}

-- The payload for the transport over UDP, if that is what is sent.
abbrev pub put_udp : List Effect → Option Bytes
put_udp (send_udp payload ∷ effects) = some payload
put_udp _ = none

network_payload :
    (moment : Moment) (payload : Bytes) {sent : Bytes}
    → put_udp (send_network_payload moment payload) ≡ some sent
    → sent ≡ payload
unfolding send_network_payload
network_payload moment payload {sent} =
    if-every (λ (effects : List Effect). put_udp effects ≡ some sent → sent ≡ payload)
      moment.str_running (send_str payload ∷ [])
      (if moment.udp_running then send_udp payload ∷ [] else []) (λ str e. cc)
      (λ no_str.
        if-every (λ (effects : List Effect). put_udp effects ≡ some sent → sent ≡ payload)
          moment.udp_running (send_udp payload ∷ []) [] (λ udp e. sym (some_inj e)) (λ off e. cc))

-- The payload that a capture gives to the transport over UDP.
captured_payload :
    ⦃f : Fmt⦄
    → (moment : Moment) (service : Service) (slots : SlotState) {sent : Bytes}
    → put_udp (on_local_capture moment service slots).1 ≡ some sent
    → sent ≡ state_payload (next_revision service slots) slots
captured_payload moment service slots e =
    elim (Bool-cases (is_changed service slots || is_resend_due moment service)) [
      | inl goes ↦
          let (effects, _, _, _, _) = on_local_capture_sends moment service slots goes in
          network_payload moment _ (sym (ap put_udp effects) ∙ e)
      | inr quiet ↦ ground (
        arith,
        sym (ap (λ r. put_udp r.1) (on_local_capture_quiet moment service slots quiet)) ∙ e,
      )
    ]

send_to_all-map :
    (t : Transport) (packet : Bytes) (destinations : List Endpoint)
    → t.has_socket ≡ true
    → is_empty packet ≡ false
    → send_to_all t packet destinations ≡ map (tx packet) destinations
unfolding send_to_all send_packet_to
send_to_all-map t packet [] socket full = refl
send_to_all-map t packet (d ∷ ds) socket full =
    rw (send_to_all-map t packet ds socket full, full, socket) refl

send-map :
    ⦃w : Windows⦄
    → ⦃f : Fmt⦄ → (t : Transport) (name payload : Bytes) → t.running ≡ true
    → t.has_socket ≡ true
    → is_empty payload ≡ false
    → let packet = sign_packet t.shared_secret (build_packet t.instance_id name payload) in
      is_empty packet ≡ false → send t name payload ≡ map (tx packet) (send_destinations t)
unfolding send
send-map t name payload running socket full made =
    if-every IsSentToAll (not t.running || not t.has_socket || is_empty payload) [] _
      (λ refused. ground (arith, refused, running, socket, full))
      (λ goes.
        if-every IsSentToAll (is_empty packet) [] (send_to_all t packet (send_destinations t))
          (λ failed. ground (arith, failed, made))
          (λ signed. send_to_all-map t packet (send_destinations t) socket made))
  where
    packet : Bytes
    packet = sign_packet t.shared_secret (build_packet t.instance_id name payload)

    IsSentToAll : List Action → Type 0
    IsSentToAll actions = actions ≡ map (tx packet) (send_destinations t)

state_payload-full :
    ⦃f : Fmt⦄ → (n : ℕ) (slots : SlotState) → is_empty (state_payload n slots) ≡ false
unfolding state_payload
state_payload-full n slots = refl

parsed-full : (packet : Bytes) {u : Update} → parse_update packet ≡ some u → is_empty packet ≡ false
unfolding parse_update starts_with
parsed-full [] h = cc
parsed-full (c ∷ packet) h = refl

-- What a game has captured, as an update from its transport and its player.
abbrev pub captured_update : Service → Transport → Bytes → SlotState → Update
captured_update service t name slots = record {
  instance_id = t.instance_id;
  sender = name;
  revision = next_revision service slots;
  slots = slots;
}

module _ ⦃w : Windows⦄ ⦃f : Fmt⦄ (t peer : Transport) (now : ℕ) (name peer_name : Bytes)
    (source : Endpoint) (world : World) (service other : Service) (slots : SlotState) where
  -- What comes of a packet at the peer: its transport hands it on, and its service then has the slots
  -- under the id of the sender.
  abbrev pub IsTaken : Bytes → Type 0
  IsTaken packet =
      (receive peer now peer_name packet source
        ≡ some (touch_gameplay_peer peer now packet source, deliver packet ∷ []))
      × (lookup t.instance_id (handle_packet world other packet).snapshots
          ≡ some (record {
            slots = slots;
            revision = next_revision service slots;
            character_name = name;
            last_proxy = proxy_id world name;
          }))

  -- If `OnLocalCapture` gives the transport over UDP, which runs and has its socket, a payload for
  -- captured slots that can be sent, then `Send` sends one packet to each of its destinations. A peer
  -- that is no relay, has another id and the same secret, and has no newer revision, hands this packet
  -- on, and its service then has exactly the captured slots, with the revision of the capture, the
  -- name and its proxy. The digest must be computed, and the packet fit the peer's buffer.
  pub on_local_capture_arrives :
      (moment : Moment) (payload digest : Bytes)
      → let u = captured_update service t name slots in
        let packet = sign_packet t.shared_secret (build_packet t.instance_id name payload) in
        put_udp (on_local_capture moment service slots).1 ≡ some payload
        → t.running ≡ true
        → t.has_socket ≡ true
        → IsSendable u
        → t.instance_id ≢ peer.instance_id
        → peer.config.relay_mode ≡ false
        → t.shared_secret ≡ peer.shared_secret
        → compute_hmac peer.shared_secret (packet_of u (codes "0") []) ≡ some digest
        → length (sign_packet peer.shared_secret (packet_of u (codes "0") [])) ≤ max_datagram_bytes
        → (restart u (snapshot_of u.instance_id other.snapshots)).revision ≤ u.revision
        → (send t name payload ≡ map (tx packet) (send_destinations t)) × IsTaken packet
  on_local_capture_arrives moment payload digest sent running socket v differs leaf same made short
        fresh =
      let carried = captured_payload moment service slots sent in
      let (handed, reads) =
        receive_state peer now peer_name source (captured_update service t name slots) digest v
          differs leaf made short in
      (
        send-map t name payload running socket
            (subst (λ p. is_empty p ≡ false) (sym carried)
              (state_payload-full (next_revision service slots) slots))
            (subst (λ p. is_empty p ≡ false) same_packet (parsed-full _ reads)),
        subst IsTaken same_packet (
          handed,
          handle_packet-parsed world other _ (captured_update service t name slots) reads fresh,
        ),
      )
    where
      same_packet :
          sign_packet peer.shared_secret
            (build_packet t.instance_id name (state_payload (next_revision service slots) slots))
          ≡ sign_packet t.shared_secret (build_packet t.instance_id name payload)
      same_packet =
          ap₂ (λ s p. sign_packet s (build_packet t.instance_id name p)) (sym same)
            (sym (captured_payload moment service slots sent))
