-- ===== src/Udp/Receiver/Safe.antt =====
-- What `ReceiverLoop` does at most, and where it ends by an exception.
use iedsync_together.Prelude.{
  ℕ, ◌≤◌, ◌⊎◌, ◌∙◌, ◌≡◌, refl, ap, Bool, true, false, not, ◌==◌, ◌&&◌, ◌||◌, List, [], ◌∷◌, ◌++◌,
  Option, none, some, arith, Every, Lacks, Every-append, Every-map, inl, inr, subst, if-every, ltb,
  length, if◌then◌else◌,
}
use iedsync_together.Text.{Bytes, codes, starts_with, is_empty, equal}
use iedsync_together.FormIdentity.Hex.{hex_decode}
use iedsync_together.Text.Number.{Fmt}
use iedsync_together.Packet.{gameplay_prefix, read_field}
use iedsync_together.Udp.{Windows, Endpoint, Transport, Action, tx, deliver}
use iedsync_together.Udp.Auth.{authenticate_packet, mark_relayed}
use iedsync_together.Udp.Auth.Relays.{mark_relayed_throws}
use iedsync_together.Udp.Peers.{
  discovery_prefix, value_or, handle_discovery, register_peer, send_hello_to, send_packet_to,
  touch_gameplay_peer,
}
use iedsync_together.Udp.Sending.{is_kept, is_unrelayed, relay_gameplay_packet}
use iedsync_together.Udp.Receiver.{is_own, max_datagram_bytes, accept_gameplay, receive}
use iedsync_together.Udp.Receiver.Guards.{
  IsSentAround, relay_gameplay_packet_around, relay_throws, touched_kept, touched_secret,
  receive_accepts,
}

-- Nothing is handed on but this packet.
abbrev pub IsOnlyHanded : Bytes → Action → Type 0
IsOnlyHanded packet (tx sent destination) = Unit
IsOnlyHanded packet (deliver handed) = handed ≡ packet

-- Nothing is handed on.
abbrev pub IsSent : Action → Type 0
IsSent (tx sent destination) = Unit
IsSent (deliver handed) = ⊥

send_packet_to-IsSent :
    (t : Transport) (packet : Bytes) (destination : Endpoint)
    → Every IsSent (send_packet_to t packet destination)
unfolding send_packet_to
send_packet_to-IsSent t packet destination =
    if-every (Every IsSent) (is_empty packet || not t.has_socket) [] (tx packet destination ∷ [])
      (λ _. tt) (λ _. (tt, tt))

SendsOnly : Transport × List Action → Type 0
SendsOnly r = Every IsSent r.1

AreSent : List Action → Type 0
AreSent = Every IsSent

module _ ⦃w : Windows⦄ ⦃f : Fmt⦄ (t : Transport) (now : ℕ) (player_name packet : Bytes)
    (source : Endpoint) where
  register_peer-SendsOnly :
      (port : ℕ) (name id : Bytes) → SendsOnly (register_peer t now player_name source port name id)
  unfolding register_peer
  register_peer-SendsOnly port name id =
      if-every SendsOnly (is_empty id || equal id t.instance_id) (t, []) _
        (λ _. unfold SendsOnly in tt) (λ new. unfold SendsOnly in first _ _)
    where
      first :
          (known : Bool) (t' : Transport)
          → Every IsSent (
              if known
              then []
              else send_hello_to t' player_name (record source { port = port }) true)
      first true t' = tt
      first false t' = unfold send_hello_to in send_packet_to-IsSent t' _ _

  -- A greeting only sends.
  Greets : Option (Transport × List Action) → Type 0
  Greets none = starts_with packet discovery_prefix ≡ false
  Greets (some answered) = (starts_with packet discovery_prefix ≡ true) × SendsOnly answered

  handle_discovery-Greets : Greets (handle_discovery t now player_name packet source)
  unfolding handle_discovery Greets
  handle_discovery-Greets =
      if-every Greets (not (starts_with packet discovery_prefix)) none _
        (λ other. ground (arith, other))
        (λ greets. (ground (arith, greets), identified _ (read_field packet (codes "id"))))
    where
      named :
          (port : ℕ) (id : Bytes) (name : Option Bytes)
          → SendsOnly (elim name [
            | none ↦ (t, [])
            | some encoded_name ↦
                if port == 0
                then (t, [])
                else register_peer t now player_name source port
                    (value_or (codes "Peer") (hex_decode encoded_name))
                    id
          ])
      named port id none = unfold SendsOnly in tt
      named port id (some encoded_name) =
          if-every SendsOnly (port == 0) (t, []) _ (λ _. unfold SendsOnly in tt)
            (λ _. register_peer-SendsOnly port _ id)

      identified :
          (port : ℕ) (id : Option Bytes)
          → SendsOnly (elim id [
            | none ↦ (t, [])
            | some id ↦ elim (read_field packet (codes "name")) [
              | none ↦ (t, [])
              | some encoded_name ↦
                  if port == 0
                  then (t, [])
                  else register_peer t now player_name source port
                      (value_or (codes "Peer") (hex_decode encoded_name))
                      id
            ]
          ])
      identified port none = unfold SendsOnly in tt
      identified port (some id) = named port id (read_field packet (codes "name"))

  -- What may follow a datagram.
  IsGuarded : Option (Transport × List Action) → Type 0
  IsGuarded none = Unit
  IsGuarded (some (t', actions)) =
      ((t' ≡ t) × (actions ≡ []))
      ⊎ ((length packet ≤ max_datagram_bytes)
          × (authenticate_packet t.shared_secret packet ≡ true)
          × (((starts_with packet discovery_prefix ≡ true) × Every IsSent actions)
              ⊎ ((starts_with packet gameplay_prefix ≡ true)
                  × (is_own t packet ≡ false)
                  × Every (IsOnlyHanded packet) actions)))

  relayed_lem :
      (touched : Transport) {actions : List Action}
      → relay_gameplay_packet touched packet source ≡ some actions
      → Every (IsOnlyHanded packet) actions
  relayed_lem touched e = elim (relay_gameplay_packet_around touched packet source e) [
    | inl nothing ↦ rw nothing tt
    | inr (relayed, (marked, around)) ↦
        Every-map (IsSentAround relayed source) (IsOnlyHanded packet) (λ a h. weaker relayed a h) _
          around
  ]
    where
      weaker :
          (relayed : Bytes) (a : Action) → IsSentAround relayed source a → IsOnlyHanded packet a
      weaker relayed (tx sent destination) h = tt
      weaker relayed (deliver handed) h = absurd h

  accepted-IsGuarded :
      length packet ≤ max_datagram_bytes
      → authenticate_packet t.shared_secret packet ≡ true
      → starts_with packet gameplay_prefix ≡ true
      → is_own t packet ≡ false
      → IsGuarded (accept_gameplay t now packet source)
  unfolding accept_gameplay IsGuarded
  accepted-IsGuarded fits good gameplay foreign =
      relays (relay_gameplay_packet (touch_gameplay_peer t now packet source) packet source) refl
    where
      relays :
          (o : Option (List Action))
          → relay_gameplay_packet (touch_gameplay_peer t now packet source) packet source ≡ o
          → IsGuarded (elim o [
            | none ↦ none
            | some relayed ↦
                some (touch_gameplay_peer t now packet source, relayed ++ (deliver packet ∷ []))
          ])
      relays none e = tt
      relays (some relayed) e = inr (
        fits,
        good,
        inr (
          gameplay,
          foreign,
          Every-append (IsOnlyHanded packet) relayed _ (relayed_lem _ e) (refl, tt),
        ),
      )

  receive-IsGuarded : IsGuarded (receive t now player_name packet source)
  unfolding receive IsGuarded
  receive-IsGuarded =
      if-every IsGuarded
        (ltb max_datagram_bytes (length packet)
          || is_empty packet
          || (not (starts_with packet discovery_prefix) && not (starts_with packet gameplay_prefix))
          || not (authenticate_packet t.shared_secret packet))
        (some (t, [])) _ (λ _. inl (refl, refl))
        (λ passed.
          answered passed (handle_discovery t now player_name packet source)
            handle_discovery-Greets)
    where
      answered :
          (ltb max_datagram_bytes (length packet)
              || is_empty packet
              || (not (starts_with packet discovery_prefix)
                  && not (starts_with packet gameplay_prefix))
              || not (authenticate_packet t.shared_secret packet))
            ≡ false
          → (o : Option (Transport × List Action)) → Greets o
          → IsGuarded (elim o [
            | some answered ↦ some answered
            | none ↦
                if starts_with packet gameplay_prefix && is_own t packet
                then some (t, [])
                else accept_gameplay t now packet source
          ])
      answered passed (some (t', actions)) h =
          let g : (starts_with packet discovery_prefix ≡ true) × Every IsSent actions =
            unfold Greets SendsOnly in h in
          inr (ground (arith, passed), ground (arith, passed), inl g)
      answered passed none h =
          if-every IsGuarded (starts_with packet gameplay_prefix && is_own t packet) (some (t, []))
            _ (λ own. inl (refl, refl))
            (λ foreign.
              let other : starts_with packet discovery_prefix ≡ false = unfold Greets in h in
              let gameplay : starts_with packet gameplay_prefix ≡ true =
                ground (arith, passed, other) in
              accepted-IsGuarded (ground (arith, passed)) (ground (arith, passed)) gameplay
                (ground (arith, foreign, gameplay)))

  -- Whatever datagram arrives, unless the thread ends by an exception: either nothing changes and
  -- nothing is done, or the datagram fits the buffer and authenticates. It then is a greeting, and
  -- nothing is handed on, or it is a gameplay packet without the transport's own id, and nothing but
  -- this packet is handed on.
  pub receive_guarded :
      {t' : Transport} {actions : List Action}
      → receive t now player_name packet source ≡ some (t', actions)
      → ((t' ≡ t) × (actions ≡ []))
        ⊎ ((length packet ≤ max_datagram_bytes)
            × (authenticate_packet t.shared_secret packet ≡ true)
            × (((starts_with packet discovery_prefix ≡ true) × Every IsSent actions)
                ⊎ ((starts_with packet gameplay_prefix ≡ true)
                    × (is_own t packet ≡ false)
                    × Every (IsOnlyHanded packet) actions)))
  unfolding IsGuarded
  receive_guarded e = subst IsGuarded e receive-IsGuarded

accept_throws :
    ⦃w : Windows⦄
    → ⦃f : Fmt⦄ → (t : Transport) (now : ℕ) (packet : Bytes) (source : Endpoint)
    → relay_gameplay_packet (touch_gameplay_peer t now packet source) packet source ≡ none
    → accept_gameplay t now packet source ≡ none
unfolding accept_gameplay
accept_throws t now packet source e = rw (accept_gameplay, e) refl

fresh_goes :
    ⦃w : Windows⦄
    → ⦃f : Fmt⦄ → (t : Transport) (packet : Bytes) → t.config.relay_mode ≡ true
    → starts_with packet gameplay_prefix ≡ true
    → is_unrelayed (read_field packet (codes "relay")) ≡ true
    → is_kept t packet ≡ false
unfolding is_kept
fresh_goes t packet relays gameplay fresh = ground (arith, relays, gameplay, fresh)

authenticates :
    ⦃w : Windows⦄ → (secret packet : Bytes) → secret ≡ [] → authenticate_packet secret packet ≡ true
unfolding authenticate_packet
authenticates secret packet none_set = rw none_set refl

no_greeting : (tag : Bytes) → starts_with (codes "IEDST|v1|auth=" ++ tag) discovery_prefix ≡ false
unfolding starts_with
no_greeting tag = refl

-- A relay without a secret that gets the datagram `IEDST|v1|auth=` with any text without a bar behind
-- it, which fits the buffer, in which no field marks it as relayed and none is the transport's own
-- id, ends its thread by an exception.
pub receive_throws :
    ⦃w : Windows⦄
    → ⦃f : Fmt⦄ → (t : Transport) (now : ℕ) (player_name tag : Bytes) (source : Endpoint)
    → t.config.relay_mode ≡ true
    → t.shared_secret ≡ []
    → Lacks b'|' tag
    → let packet = codes "IEDST|v1|auth=" ++ tag in
      length packet ≤ max_datagram_bytes
      → is_unrelayed (read_field packet (codes "relay")) ≡ true
      → is_own t packet ≡ false
      → receive t now player_name packet source ≡ none
receive_throws t now player_name tag source relays passed lacks fits fresh foreign =
    let (gameplay, throws) = mark_relayed_throws t.shared_secret tag lacks in
    let packet = codes "IEDST|v1|auth=" ++ tag in
    receive_accepts t now player_name packet source fits
      (authenticates t.shared_secret packet passed) gameplay (no_greeting tag) foreign
    ∙ accept_throws t now packet source (
        relay_throws (touch_gameplay_peer t now packet source) packet source
          (touched_kept t now packet source ∙ fresh_goes t packet relays gameplay fresh)
          (ap (λ s. mark_relayed s packet) (touched_secret t now packet source) ∙ throws))
