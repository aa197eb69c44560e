-- ===== src/StrTransport/Arrival.antt =====
-- A state from one transport of src/StrTransport.cpp to another.
use iedsync_together.Prelude.{
  ℕ, ◌≤◌, ◌≡◌, refl, Bool, true, false, not, ◌&&◌, ◌||◌, [], Option, none, some, ltb, ◌==◌,
  if◌then◌else◌, length, if-every, some_inj, sym, subst,
}
use iedsync_together.Text.{Bytes, codes, equal, is_empty}
use iedsync_together.Text.Number.{Fmt}
use iedsync_together.Text.Plain.{IsPlain, hex-IsPlain, digits-IsPlain}
use iedsync_together.FormIdentity.Hex.{hex_encode}
use iedsync_together.FormIdentity.Hex.RoundTrip.{hex_encode-upper}
use iedsync_together.FormIdentity.Slots.{SlotState, encode_slots}
use iedsync_together.FormIdentity.Slots.Plain.{encode_slots-IsPlain}
use iedsync_together.Packet.{read_field, build_packet, state_payload}
use iedsync_together.Packet.State.{read_id, build_packet-state_packet}
use iedsync_together.Strpm.{max_payload_bytes}
use iedsync_together.Strpm.Incoming.{Message}
use iedsync_together.Dict.{lookup, bytes_eq}
use iedsync_together.ProxyResolver.{World}
use iedsync_together.SyncService.{Service}
use iedsync_together.SyncService.Remote.{Update, proxy_id, snapshot_of, restart, handle_packet}
use iedsync_together.SyncService.Remote.Delivery.{IsSendable, handle_packet-build_packet}
use iedsync_together.StrTransport.{
  StrTransport, Host, get_local_player_name, can_send, send_str_packet, has_own_id, receive_str,
}

module _ ⦃f : Fmt⦄ where
  -- The id of a state's packet is that of the transport that built it.
  read_field-build_packet :
      (id name : Bytes) (revision : ℕ) (slots : SlotState)
      → IsPlain id
      → read_field (build_packet id name (state_payload revision slots)) (codes "id") ≡ some id
  read_field-build_packet id name revision slots plain =
      rw (build_packet-state_packet id name revision slots) (
        read_id id (hex_encode name) (codes "0") (f.dec revision) (encode_slots slots) [] plain
          (hex-IsPlain _ (hex_encode-upper name)) (refl, tt)
          (digits-IsPlain _ (f.dec_digits revision)) (encode_slots-IsPlain slots) tt)

  abbrev pub update_of : Host → StrTransport → ℕ → SlotState → Update
  update_of host t revision slots = record {
    instance_id = t.local_instance_id;
    sender = get_local_player_name host;
    slots = slots;
    revision = revision;
  }

  build_packet-full : (id name payload : Bytes) → is_empty (build_packet id name payload) ≡ false
  unfolding build_packet
  build_packet-full id name payload = refl

  -- What the guards of `Send` let pass.
  send_str_packet-some :
      (host : Host) (t : StrTransport) (payload : Bytes) {packet : Bytes}
      → send_str_packet host t payload ≡ some packet
      → (packet ≡ build_packet t.local_instance_id (get_local_player_name host) payload)
        × (ltb max_payload_bytes (length packet) ≡ false)
  unfolding send_str_packet
  send_str_packet-some host t payload {packet} =
      if-every (λ o. o ≡ some packet → Sent)
        (not t.running || not (can_send t.api) || is_empty payload) _ _ (λ closed e. cc)
        (λ ready.
          if-every (λ o. o ≡ some packet → Sent) (ltb max_payload_bytes (length built)) _ _
            (λ large e. cc)
            (λ fits e. (
              sym (some_inj e),
              subst (λ p. ltb max_payload_bytes (length p) ≡ false) (some_inj e) fits,
            )))
    where
      built : Bytes
      built = build_packet t.local_instance_id (get_local_player_name host) payload

      Sent : Type 0
      Sent = (packet ≡ built) × (ltb max_payload_bytes (length packet) ≡ false)

  -- The receiver takes the message for one of its own, by the id in it or by its sender.
  abbrev pub is_own_by_id : StrTransport → Bytes → Bool
  is_own_by_id peer id = not (is_empty peer.local_instance_id) && equal id peer.local_instance_id

  abbrev pub is_own_by_sender : StrTransport → Message → Bool
  is_own_by_sender peer message =
      not (message.sender_id == 0)
      && not (peer.local_connection_id == 0)
      && message.sender_id == peer.local_connection_id

  abbrev pub is_taken_for_own : StrTransport → Bytes → Message → Bool
  is_taken_for_own peer id message = is_own_by_id peer id || is_own_by_sender peer message

  has_own_id-build_packet :
      (peer : StrTransport) (id name : Bytes) (revision : ℕ) (slots : SlotState)
      → IsPlain id
      → has_own_id peer (build_packet id name (state_payload revision slots))
        ≡ (not (is_empty peer.local_instance_id) && equal id peer.local_instance_id)
  unfolding has_own_id
  has_own_id-build_packet peer id name revision slots plain =
      rw (has_own_id, read_field-build_packet id name revision slots plain)

  receive_str-build_packet :
      (peer : StrTransport) (message : Message) (id name : Bytes) (revision : ℕ) (slots : SlotState)
      → IsPlain id
      → peer.running ≡ true
      → peer.has_handler ≡ true
      → message.payload ≡ some (build_packet id name (state_payload revision slots))
      → ltb max_payload_bytes (length (build_packet id name (state_payload revision slots))) ≡ false
      → receive_str peer message ≡ (
          if is_taken_for_own peer id message
          then none
          else some (build_packet id name (state_payload revision slots)))
  unfolding receive_str
  receive_str-build_packet peer message id name revision slots plain running handler carries fits =
      rw
        (
          receive_str,
          carries,
          has_own_id-build_packet peer id name revision slots plain,
          running,
          fits,
          handler,
          build_packet-full id name (state_payload revision slots),
        )
        (two_tests (is_own_by_id peer id) (is_own_by_sender peer message)
          (some (build_packet id name (state_payload revision slots))))
    where
      two_tests :
          (a b : Bool) (x : Option Bytes)
          → (if a then none else if b then none else x) ≡ (if a || b then none else x)
      two_tests true b x = refl
      two_tests false b x = refl

  -- What the service of a peer gets of a captured state that `Send` let pass: the receiving transport
  -- hands the packet on, unless it takes the message for one of its own, and `HandlePacket` then holds
  -- the slots, the revision and the name that were sent, with the proxy of that name, unless the peer
  -- has a newer revision.
  pub send_str_packet-delivered :
      (host : Host) (t peer : StrTransport) (message : Message) (revision : ℕ) (slots : SlotState)
      (world : World) (service : Service) {packet : Bytes}
      → let u = update_of host t revision slots in
        send_str_packet host t (state_payload revision slots) ≡ some packet
        → IsSendable u
        → peer.running ≡ true
        → peer.has_handler ≡ true
        → message.payload ≡ some packet
        → (restart u (snapshot_of u.instance_id service.snapshots)).revision ≤ revision
        → (receive_str peer message
            ≡ (if is_taken_for_own peer t.local_instance_id message then none else some packet))
          × (lookup t.local_instance_id (handle_packet world service packet).snapshots
              ≡ some (record {
                slots = slots;
                revision = revision;
                character_name = get_local_player_name host;
                last_proxy = proxy_id world (get_local_player_name host);
              }))
  send_str_packet-delivered host t peer message revision slots world service {packet} sent v running
        handler carries fresh =
      let (built, fits) = send_str_packet-some host t (state_payload revision slots) sent in
      let u = update_of host t revision slots in
      subst
        (λ p.
          (receive_str peer message
            ≡ (if is_taken_for_own peer t.local_instance_id message then none else some p))
          × (lookup t.local_instance_id (handle_packet world service p).snapshots
              ≡ some (record {
                slots = slots;
                revision = revision;
                character_name = get_local_player_name host;
                last_proxy = proxy_id world (get_local_player_name host);
              })))
        (sym built)
        (
          receive_str-build_packet peer message t.local_instance_id (get_local_player_name host)
              revision slots v.id_plain running handler (rw built at carries) (rw built at fits),
          handle_packet-build_packet world service u v fresh,
        )
