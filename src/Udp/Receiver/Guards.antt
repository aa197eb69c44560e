-- ===== src/Udp/Receiver/Guards.antt =====
-- The tests of `ReceiverLoop` and of `RelayGameplayPacket`.
use iedsync_together.Prelude.{
  ℕ, ◌≤◌, length, ◌⊎◌, ◌∙◌, ◌≡◌, refl, sym, true, false, not, ◌||◌, List, [], ◌∷◌, ◌++◌, none, some,
  arith, Every, Bool-cases, Option-cases, inl, inr, some_inj, subst,
}
use iedsync_together.Text.{Bytes, starts_with, is_empty}
use iedsync_together.Text.Number.{Fmt}
use iedsync_together.Packet.{gameplay_prefix}
use iedsync_together.Udp.{Windows, Endpoint, same_endpoint, Transport, Action, tx, deliver}
use iedsync_together.Udp.Auth.{authenticate_packet, mark_relayed}
use iedsync_together.Udp.Peers.{
  discovery_prefix, handle_discovery, touch_gameplay_peer, send_packet_to, is_excluded,
}
use iedsync_together.Udp.Peers.Destinations.{snapshot_destinations_lem}
use iedsync_together.Udp.Sending.{send_to_all, is_kept, send_relayed, relay_gameplay_packet}
use iedsync_together.Udp.Receiver.{is_own, max_datagram_bytes, accept_gameplay, receive}

-- The datagrams among these actions go elsewhere, and carry this packet.
abbrev pub IsSentAround : Bytes → Endpoint → Action → Type 0
IsSentAround relayed source (tx packet destination) =
    (packet ≡ relayed) × (same_endpoint destination source ≡ false)
IsSentAround relayed source (deliver packet) = ⊥

send_to_all-IsSentAround :
    (t : Transport) (packet : Bytes) (source : Endpoint) (destinations : List Endpoint)
    → Every (λ peer. is_excluded (some source) peer ≡ false) destinations
    → Every (IsSentAround packet source) (send_to_all t packet destinations)
unfolding send_to_all send_packet_to is_excluded
send_to_all-IsSentAround t packet source [] h = tt
send_to_all-IsSentAround t packet source (d ∷ ds) (p, h) =
    let rest = send_to_all-IsSentAround t packet source ds h in
    elim (Bool-cases (is_empty packet || not t.has_socket)) [
      | inl skip ↦ rw skip rest
      | inr go ↦ rw go ((refl, p), rest)
    ]

starts-full : (packet : Bytes) → starts_with packet gameplay_prefix ≡ true → is_empty packet ≡ false
unfolding starts_with
starts-full [] h = cc
starts-full (c ∷ packet) h = refl

module _ ⦃w : Windows⦄ ⦃f : Fmt⦄ (t : Transport) (now : ℕ) (player_name packet : Bytes)
    (source : Endpoint) where
  -- A gameplay packet from elsewhere is accepted if it fits the buffer and authenticates.
  pub receive_accepts :
      length packet ≤ max_datagram_bytes
      → authenticate_packet t.shared_secret packet ≡ true
      → starts_with packet gameplay_prefix ≡ true
      → starts_with packet discovery_prefix ≡ false
      → is_own t packet ≡ false
      → receive t now player_name packet source ≡ accept_gameplay t now packet source
  unfolding receive handle_discovery
  receive_accepts fits a g d o = ground (arith, fits, a, g, d, o, starts-full packet g)

module _ ⦃w : Windows⦄ ⦃f : Fmt⦄ (t : Transport) (packet : Bytes) (source : Endpoint) where
  relay_skips : is_kept t packet ≡ true → relay_gameplay_packet t packet source ≡ some []
  unfolding relay_gameplay_packet
  relay_skips h = rw h

  pub relay_goes :
      {relayed : Bytes}
      → is_kept t packet ≡ false
      → mark_relayed t.shared_secret packet ≡ some relayed
      → relay_gameplay_packet t packet source ≡ some (send_relayed t relayed source)
  unfolding relay_gameplay_packet
  relay_goes h e = rw (h, e)

  pub relay_throws :
      is_kept t packet ≡ false
      → mark_relayed t.shared_secret packet ≡ none
      → relay_gameplay_packet t packet source ≡ none
  unfolding relay_gameplay_packet
  relay_throws h e = rw (h, e)

  send_relayed-IsSentAround :
      (relayed : Bytes) → Every (IsSentAround relayed source) (send_relayed t relayed source)
  unfolding send_relayed
  send_relayed-IsSentAround relayed = elim (Bool-cases (is_empty relayed)) [
    | inl failed ↦ rw failed tt
    | inr made ↦
        rw made (
          send_to_all-IsSentAround t relayed source _ (snapshot_destinations_lem t (some source)).0)
  ]

  -- A relay sends nothing on, or only the marked packet, and never back to where it came from.
  pub relay_gameplay_packet_around :
      {actions : List Action}
      → relay_gameplay_packet t packet source ≡ some actions
      → (actions ≡ [])
        ⊎ ((relayed : Bytes) × ((mark_relayed t.shared_secret packet ≡ some relayed)
              × Every (IsSentAround relayed source) actions))
  relay_gameplay_packet_around {actions} e = elim (Bool-cases (is_kept t packet)) [
    | inl kept ↦ inl (some_inj (sym e ∙ relay_skips kept))
    | inr goes ↦ elim (Option-cases (mark_relayed t.shared_secret packet)) [
      | inl throws ↦ ground (arith, sym (relay_throws goes throws) ∙ e)
      | inr (relayed, marked) ↦ inr (
        relayed,
        (
          marked,
          subst (Every (IsSentAround relayed source)) (some_inj (sym (relay_goes goes marked) ∙ e))
              (send_relayed-IsSentAround relayed),
        ),
      )
    ]
  ]

module _ ⦃w : Windows⦄ ⦃f : Fmt⦄ (t : Transport) (now : ℕ) (packet : Bytes)
    (source : Endpoint) where
  pub touched_kept : is_kept (touch_gameplay_peer t now packet source) packet ≡ is_kept t packet
  unfolding touch_gameplay_peer is_kept
  touched_kept = ground arith

  pub touched_secret : (touch_gameplay_peer t now packet source).shared_secret ≡ t.shared_secret
  unfolding touch_gameplay_peer
  touched_secret = ground arith

  pub accept_lem :
      {relayed : List Action}
      → relay_gameplay_packet (touch_gameplay_peer t now packet source) packet source ≡ some relayed
      → accept_gameplay t now packet source
        ≡ some (touch_gameplay_peer t now packet source, relayed ++ (deliver packet ∷ []))
  unfolding accept_gameplay
  accept_lem e = rw (accept_gameplay, e)

  -- A gameplay packet that is not to be relayed is only handed on.
  pub accept_unrelayed :
      is_kept t packet ≡ true
      → accept_gameplay t now packet source
        ≡ some (touch_gameplay_peer t now packet source, deliver packet ∷ [])
  accept_unrelayed h = accept_lem (relay_skips _ packet source (touched_kept ∙ h))
