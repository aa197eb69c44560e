-- ===== src/Udp/Receiver/States.antt =====
-- `ReceiverLoop` on the packets that carry a state.
use iedsync_together.Prelude.{
  ℕ, ◌≤◌, length, ◌∙◌, ◌≡◌, ◌≢◌, refl, ap, sym, Bool, true, false, not, ◌&&◌, [], ◌∷◌, some, arith,
  subst,
}
use iedsync_together.Text.{Bytes, codes, starts_with, equal}
use iedsync_together.Text.Search.{equal_iff}
use iedsync_together.Text.Number.{Fmt}
use iedsync_together.Text.Plain.{IsPlain, digits-IsPlain}
use iedsync_together.FormIdentity.Hex.{hex_encode}
use iedsync_together.FormIdentity.Slots.{encode_slots}
use iedsync_together.FormIdentity.Slots.Plain.{encode_slots-IsPlain}
use iedsync_together.Packet.{gameplay_prefix, build_packet, state_payload}
use iedsync_together.Packet.State.{EndsField, read_id, read_relay, starts_gameplay}
use iedsync_together.SyncService.Remote.{Update, parse_update}
use iedsync_together.SyncService.Remote.Delivery.{
  IsSendable, packet_of, parse_update-packet_of, build_packet-packet_of,
}
use iedsync_together.Udp.{Windows, Endpoint, Transport, deliver}
use iedsync_together.Udp.Auth.{compute_hmac, sign_packet, authenticate_packet}
use iedsync_together.Udp.Auth.Signatures.{authenticate_packet-sign_packet}
use iedsync_together.Udp.Auth.Relays.{
  IsTag, packet_tail, sign_packet-packet_of, IsTag-EndsField, from_IsPlain, remove_none,
  rfind_packet,
}
use iedsync_together.Udp.Peers.{discovery_prefix, touch_gameplay_peer}
use iedsync_together.Udp.Sending.{is_unrelayed, is_kept}
use iedsync_together.Udp.Receiver.{is_own, max_datagram_bytes, accept_gameplay, receive}
use iedsync_together.Udp.Receiver.Guards.{receive_accepts, accept_unrelayed}

module _ ⦃w : Windows⦄ ⦃f : Fmt⦄ (u : Update) (v : IsSendable u) (relay : ℕ) (behind : Bytes)
    (plain : IsPlain (relay ∷ [])) (ends : EndsField behind) where
  no_greeting : starts_with (packet_of u (relay ∷ []) behind) discovery_prefix ≡ false
  unfolding starts_with
  no_greeting = refl

  gameplay : starts_with (packet_of u (relay ∷ []) behind) gameplay_prefix ≡ true
  gameplay =
      starts_gameplay u.instance_id (hex_encode u.sender) (relay ∷ []) (f.dec u.revision)
        (encode_slots u.slots) behind v.id_plain (from_IsPlain u v) plain
        (digits-IsPlain _ (f.dec_digits u.revision)) (encode_slots-IsPlain u.slots) ends

  not_own :
      (t : Transport)
      → u.instance_id ≢ t.instance_id
      → is_own t (packet_of u (relay ∷ []) behind) ≡ false
  unfolding is_own
  not_own t other =
      rw
        (
          is_own,
          read_id u.instance_id (hex_encode u.sender) (relay ∷ []) (f.dec u.revision)
              (encode_slots u.slots) behind v.id_plain (from_IsPlain u v) plain
              (digits-IsPlain _ (f.dec_digits u.revision)) (encode_slots-IsPlain u.slots) ends,
        )
        (ground (arith, equal_iff u.instance_id t.instance_id))

  kept_lem :
      (t : Transport)
      → is_kept t (packet_of u (relay ∷ []) behind)
        ≡ not (t.config.relay_mode && equal (relay ∷ []) (codes "0"))
  unfolding is_kept is_unrelayed
  kept_lem t =
      rw
        (
          gameplay,
          read_relay u.instance_id (hex_encode u.sender) (relay ∷ []) (f.dec u.revision)
              (encode_slots u.slots) behind v.id_plain (from_IsPlain u v) plain
              (digits-IsPlain _ (f.dec_digits u.revision)) (encode_slots-IsPlain u.slots) ends,
        )
        (ground arith)

  accepted :
      (t : Transport) (now : ℕ) (player_name : Bytes) (source : Endpoint)
      → u.instance_id ≢ t.instance_id
      → length (packet_of u (relay ∷ []) behind) ≤ max_datagram_bytes
      → authenticate_packet t.shared_secret (packet_of u (relay ∷ []) behind) ≡ true
      → receive t now player_name (packet_of u (relay ∷ []) behind) source
        ≡ accept_gameplay t now (packet_of u (relay ∷ []) behind) source
  accepted t now player_name source other fits good =
      receive_accepts t now player_name _ source fits good gameplay no_greeting (not_own t other)

module _ ⦃w : Windows⦄ ⦃f : Fmt⦄ (u : Update) (v : IsSendable u) (secret : Bytes) (relay : ℕ)
    (digest : Bytes) (plain : IsPlain (relay ∷ []))
    (made : compute_hmac secret (packet_of u (relay ∷ []) []) ≡ some digest) where
  signed_authenticates :
      authenticate_packet secret (sign_packet secret (packet_of u (relay ∷ []) [])) ≡ true
  signed_authenticates =
      authenticate_packet-sign_packet secret _ digest
        (ap (compute_hmac secret) (remove_none _ (rfind_packet u v (relay ∷ []) plain)) ∙ made)

  -- A signed packet is a packet with a state, and something behind it that ends a field.
  signed_shape :
      (behind : Bytes) × (IsTag behind
        × (sign_packet secret (packet_of u (relay ∷ []) []) ≡ packet_of u (relay ∷ []) behind))
  signed_shape =
      let (behind, (tag, e)) = sign_packet-packet_of u v secret (relay ∷ []) digest plain made in
      (behind, (tag, e ∙ packet_tail u v (relay ∷ []) behind))

  signed_parses : parse_update (sign_packet secret (packet_of u (relay ∷ []) [])) ≡ some u
  signed_parses =
      let (behind, (tag, e)) = signed_shape in
      rw e (parse_update-packet_of u (relay ∷ []) behind v plain (IsTag-EndsField behind tag))

  signed_accepted :
      (t : Transport) (now : ℕ) (player_name : Bytes) (source : Endpoint)
      → t.shared_secret ≡ secret
      → u.instance_id ≢ t.instance_id
      → length (sign_packet secret (packet_of u (relay ∷ []) [])) ≤ max_datagram_bytes
      → let packet = sign_packet secret (packet_of u (relay ∷ []) []) in
        (receive t now player_name packet source ≡ accept_gameplay t now packet source)
        × (is_kept t packet ≡ not (t.config.relay_mode && equal (relay ∷ []) (codes "0")))
  signed_accepted t now player_name source same other short =
      let (behind, (tag, e)) = signed_shape in
      let ends = IsTag-EndsField behind tag in
      let good =
        subst (λ s. authenticate_packet s (packet_of u (relay ∷ []) behind) ≡ true) (sym same)
          (subst (λ p. authenticate_packet secret p ≡ true) e signed_authenticates) in
      rw e (
        accepted u v relay behind plain ends t now player_name source other
            (subst (λ p. length p ≤ max_datagram_bytes) e short) good,
        kept_lem u v relay behind plain ends t,
      )

marked_stays : (mode : Bool) → not (mode && equal (codes "1") (codes "0")) ≡ true
unfolding equal
marked_stays mode = ground arith

leaf_keeps : (mode : Bool) → mode ≡ false → not (mode && equal (codes "0") (codes "0")) ≡ true
leaf_keeps mode h = ground arith

module _ ⦃w : Windows⦄ ⦃f : Fmt⦄ (t : Transport) (now : ℕ) (player_name : Bytes) (source : Endpoint)
    (u : Update) (digest : Bytes) where
  -- A transport that is no relay hands on every state that can be sent and that a peer with another
  -- id has sent under the same secret in a packet that fits the receiver's buffer, if the digest can
  -- be computed: it sends nothing, and the packet reads back as the state that was sent.
  pub receive_state :
      IsSendable u
      → u.instance_id ≢ t.instance_id
      → t.config.relay_mode ≡ false
      → compute_hmac t.shared_secret (packet_of u (codes "0") []) ≡ some digest
      → length (sign_packet t.shared_secret (packet_of u (codes "0") [])) ≤ max_datagram_bytes
      → let packet =
          sign_packet t.shared_secret
            (build_packet u.instance_id u.sender (state_payload u.revision u.slots)) in
        (receive t now player_name packet source
          ≡ some (touch_gameplay_peer t now packet source, deliver packet ∷ []))
        × (parse_update packet ≡ some u)
  receive_state v other leaf made short =
      let (accepts, kept) =
        signed_accepted u v t.shared_secret b'0' digest (refl, tt) made t now player_name source
          refl other short in
      rw (build_packet-packet_of u) (
        accepts ∙ accept_unrelayed t now _ source (kept ∙ leaf_keeps t.config.relay_mode leaf),
        signed_parses u v t.shared_secret b'0' digest (refl, tt) made,
      )

  -- A state that can be sent, marked as relayed and signed under the same secret by a peer with
  -- another id, goes no further, whatever the transport's mode, if the digest can be computed: it
  -- is handed on, nothing is sent, and it reads back as the state.
  pub receive_relayed_state :
      IsSendable u
      → u.instance_id ≢ t.instance_id
      → compute_hmac t.shared_secret (packet_of u (codes "1") []) ≡ some digest
      → length (sign_packet t.shared_secret (packet_of u (codes "1") [])) ≤ max_datagram_bytes
      → let packet = sign_packet t.shared_secret (packet_of u (codes "1") []) in
        (receive t now player_name packet source
          ≡ some (touch_gameplay_peer t now packet source, deliver packet ∷ []))
        × (parse_update packet ≡ some u)
  receive_relayed_state v other made short =
      let (accepts, kept) =
        signed_accepted u v t.shared_secret b'1' digest (refl, tt) made t now player_name source
          refl other short in
      (
        accepts ∙ accept_unrelayed t now _ source (kept ∙ marked_stays t.config.relay_mode),
        signed_parses u v t.shared_secret b'1' digest (refl, tt) made,
      )
