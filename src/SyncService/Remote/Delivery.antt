-- ===== src/SyncService/Remote/Delivery.antt =====
-- `HandlePacket` on the packets that a transport builds.
use iedsync_together.Prelude.{◌≤◌, ◌≡◌, ◌≢◌, refl, [], some, arith, ap}
use iedsync_together.Text.{Bytes, codes}
use iedsync_together.Text.Number.{Fmt, u64_max}
use iedsync_together.Text.Number.Parse.{sto-dec}
use iedsync_together.FormIdentity.Hex.{hex_encode}
use iedsync_together.FormIdentity.Hex.RoundTrip.{IsByteText, hex_decode-encode, hex_encode-upper}
use iedsync_together.FormIdentity.Slots.{encode_slots}
use iedsync_together.FormIdentity.Slots.RoundTrip.{decode_slots-encode}
use iedsync_together.Packet.{build_packet, state_payload}
use iedsync_together.Text.Plain.{IsPlain, hex-IsPlain, digits-IsPlain}
use iedsync_together.FormIdentity.Slots.Plain.{encode_slots-IsPlain}
use iedsync_together.Packet.State.{
  state_packet, EndsField, read_id, read_from, read_rev, read_slots, starts_gameplay,
  contains_state, build_packet-state_packet,
}
use iedsync_together.ProxyResolver.{World}
use iedsync_together.Dict.{lookup, bytes_eq, lookup-insert_self}
use iedsync_together.SyncService.{Service}
use iedsync_together.SyncService.Remote.{
  Update, non_empty, parse_fields, parse_update, proxy_id, snapshot_of, restart, store_update,
  handle_packet, handle_packet-some,
}
use iedsync_together.SyncService.Remote.Store.{IsSlots}

non_empty_lem : (v : Bytes) → v ≢ [] → non_empty v ≡ some v
unfolding non_empty
non_empty_lem v h = ground arith

module _ ⦃f : Fmt⦄ where
  -- What a peer may send: an id of the kind that the transports make, with no lower-case letter and no
  -- bar, a name, slots that are each empty or an identity, and a revision that fits its type.
  pub record IsSendable (u : Update) : Type 0 where
    pub id_plain : IsPlain u.instance_id
    pub id_ne_nil : u.instance_id ≢ []
    pub name_bytes : IsByteText u.sender
    pub name_ne_nil : u.sender ≢ []
    pub slots_ok : IsSlots u.slots
    pub revision_le : u.revision ≤ u64_max

  -- The packet as it is sent, with the relay mark `0` and nothing behind, and as it may arrive.
  abbrev pub packet_of : Update → Bytes → Bytes → Bytes
  packet_of u relay tail =
      state_packet u.instance_id (hex_encode u.sender) relay (f.dec u.revision)
        (encode_slots u.slots) tail

  parse_fields-packet_of :
      (u : Update) (relay tail : Bytes)
      → IsSendable u
      → IsPlain relay
      → EndsField tail
      → parse_fields (packet_of u relay tail) ≡ some u
  unfolding parse_fields
  parse_fields-packet_of u relay tail v r t =
      let from_IsPlain = hex-IsPlain _ (hex_encode-upper u.sender) in
      let rev_plain = digits-IsPlain _ (f.dec_digits u.revision) in
      let slots_plain = encode_slots-IsPlain u.slots in
      rw (
        read_id _ _ _ _ _ _ v.id_plain from_IsPlain r rev_plain slots_plain t,
        non_empty_lem u.instance_id v.id_ne_nil,
        read_from _ _ _ _ _ _ v.id_plain from_IsPlain r rev_plain slots_plain t,
        read_rev _ _ _ _ _ _ v.id_plain from_IsPlain r rev_plain slots_plain t,
        read_slots _ _ _ _ _ _ v.id_plain from_IsPlain r rev_plain slots_plain t,
        hex_decode-encode u.sender v.name_bytes,
        non_empty_lem u.sender v.name_ne_nil,
        decode_slots-encode u.slots v.slots_ok.0 v.slots_ok.1,
        sto-dec u64_max u.revision v.revision_le,
      )

  -- A packet that carries a state parses to that state, whatever its relay mark, and whatever fields
  -- stand behind.
  pub parse_update-packet_of :
      (u : Update) (relay tail : Bytes)
      → IsSendable u
      → IsPlain relay
      → EndsField tail
      → parse_update (packet_of u relay tail) ≡ some u
  unfolding parse_update
  parse_update-packet_of u relay tail v r t =
      let from_IsPlain = hex-IsPlain _ (hex_encode-upper u.sender) in
      let rev_plain = digits-IsPlain _ (f.dec_digits u.revision) in
      let slots_plain = encode_slots-IsPlain u.slots in
      rw
        (
          starts_gameplay _ _ _ _ _ _ v.id_plain from_IsPlain r rev_plain slots_plain t,
          contains_state _ _ _ _ _ _ v.id_plain from_IsPlain r rev_plain slots_plain t,
        )
        (parse_fields-packet_of u relay tail v r t)

  -- The packet that a transport builds around the payload of the service is one of these.
  pub build_packet-packet_of :
      (u : Update)
      → build_packet u.instance_id u.sender (state_payload u.revision u.slots)
        ≡ packet_of u (codes "0") []
  build_packet-packet_of u = build_packet-state_packet u.instance_id u.sender u.revision u.slots

  -- Any packet that reads as a state.
  pub handle_packet-parsed :
      (world : World) (service : Service) (packet : Bytes) (u : Update)
      → parse_update packet ≡ some u
      → (restart u (snapshot_of u.instance_id service.snapshots)).revision ≤ u.revision
      → lookup u.instance_id (handle_packet world service packet).snapshots
        ≡ some (record {
          slots = u.slots;
          revision = u.revision;
          character_name = u.sender;
          last_proxy = proxy_id world u.sender;
        })
  handle_packet-parsed world service packet u e fresh =
      rw
        (
          handle_packet-some world service packet u e,
          lookup-insert_self u.instance_id
              (store_update u (proxy_id world u.sender)
                (snapshot_of u.instance_id service.snapshots))
              service.snapshots,
        )
        (ap some (stored fresh))
    where
      stored :
          (restart u (snapshot_of u.instance_id service.snapshots)).revision ≤ u.revision
          → store_update u (proxy_id world u.sender) (snapshot_of u.instance_id service.snapshots)
            ≡ record {
              slots = u.slots;
              revision = u.revision;
              character_name = u.sender;
              last_proxy = proxy_id world u.sender;
            }
      stored h = unfold store_update in ground arith

  -- A state that can be sent and that a peer's transport has laid out in a packet is stored as it
  -- was sent, with the proxy that stands for the peer: the snapshot of its id then holds the slots,
  -- the revision, the name and that proxy, unless it held a newer revision of the same character.
  pub handle_packet-build_packet :
      (world : World) (service : Service) (u : Update)
      → IsSendable u
      → (restart u (snapshot_of u.instance_id service.snapshots)).revision ≤ u.revision
      → lookup u.instance_id
          (handle_packet world service
            (build_packet u.instance_id u.sender (state_payload u.revision u.slots))).snapshots
        ≡ some (record {
          slots = u.slots;
          revision = u.revision;
          character_name = u.sender;
          last_proxy = proxy_id world u.sender;
        })
  handle_packet-build_packet world service u v fresh = rw (build_packet-packet_of u) (
      handle_packet-parsed world service _ u
        (parse_update-packet_of u (codes "0") [] v (refl, tt) tt) fresh)
