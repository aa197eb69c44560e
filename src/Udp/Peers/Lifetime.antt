-- ===== src/Udp/Peers/Lifetime.antt =====
-- `ExpirePeers` and `TouchGameplayPeer`.
use iedsync_together.Prelude.{
  ℕ, ◌-◌, ◌≤◌, ◌≡◌, ◌⊎◌, ◌↔◌, refl, sym, true, false, List, [], ◌∷◌, ◌++◌, none, ltb, map, arith,
  Every, Every-right, ◌>>=◌, Bool-cases, inl, inr, subst,
}
use iedsync_together.Text.{Bytes, codes, starts_with}
use iedsync_together.Text.Number.{Fmt}
use iedsync_together.Packet.{read_field, gameplay_prefix}
use iedsync_together.FormIdentity.Hex.{hex_decode}
use iedsync_together.Dict.{insert, member, bytes_eq}
use iedsync_together.Udp.{Windows, Endpoint, address_to_string, Peer, Transport}
use iedsync_together.Udp.Peers.{
  touch_gameplay_peer, addresses, snapshot_destinations, drop_expired, expire_peers, value_or,
  gameplay_key, is_excluded,
}
use iedsync_together.Udp.Peers.Destinations.{snapshot_destinations_lem}

-- The entry stands somewhere in the table.
abbrev pub Among : Bytes × Peer → List (Bytes × Peer) → Type 0
Among e [] = ⊥
Among e (x ∷ xs) = (e ≡ x) ⊎ Among e xs

abbrev pub IsFresh : ℕ → ℕ → Bytes × Peer → Type 0
IsFresh now timeout e = now - e.1.last_seen ≤ timeout

module _ (now timeout : ℕ) (e : Bytes × Peer) where
  expired_sound :
      (peers : List (Bytes × Peer))
      → Among e (drop_expired now timeout peers)
      → Among e peers × IsFresh now timeout e
  unfolding drop_expired
  expired_sound [] m = absurd m
  expired_sound ((key, peer) ∷ peers) m = elim (Bool-cases (ltb timeout (now - peer.last_seen))) [
    | inl old ↦ let (there, fresh) = expired_sound peers (rw old at m) in (inr there, fresh)
    | inr young ↦
        let m' : (e ≡ (key, peer)) ⊎ Among e (drop_expired now timeout peers) = rw young at m in
        elim m' [
          | inl same ↦ (inl same, subst (IsFresh now timeout) (sym same) (ground (arith, young)))
          | inr there ↦ let (in_rest, fresh) = expired_sound peers there in (inr in_rest, fresh)
        ]
  ]

  expired_complete :
      (peers : List (Bytes × Peer))
      → Among e peers
      → IsFresh now timeout e
      → Among e (drop_expired now timeout peers)
  unfolding drop_expired
  expired_complete [] m h = absurd m
  expired_complete ((key, peer) ∷ peers) (inl same) h =
      rw (young (subst (IsFresh now timeout) same h)) (inl same)
    where
      young : IsFresh now timeout (key, peer) → ltb timeout (now - peer.last_seen) ≡ false
      young h = ground arith
  expired_complete ((key, peer) ∷ peers) (inr there) h =
      elim (Bool-cases (ltb timeout (now - peer.last_seen))) [
        | inl old ↦ rw old (expired_complete peers there h)
        | inr kept ↦ rw kept (inr (expired_complete peers there h))
      ]

-- Expiry keeps exactly the peers that were seen within the timeout.
pub expire_peers_iff :
    (t : Transport) (now : ℕ) (e : Bytes × Peer)
    → Among e (expire_peers t now).peers
      ↔ (Among e t.peers × IsFresh now t.config.peer_timeout_ms e)
unfolding expire_peers
expire_peers_iff t now e = (
  expired_sound now t.config.peer_timeout_ms e t.peers,
  λ h. expired_complete now t.config.peer_timeout_ms e t.peers h.0 h.1,
)

module _ ⦃w : Windows⦄ ⦃f : Fmt⦄ where
  Every-addresses_insert :
      (P : Endpoint → Type 0) (key : Bytes) (peer : Peer) (peers : List (Bytes × Peer))
      → Every P (addresses (insert key peer peers))
      → P peer.address
  unfolding insert addresses
  Every-addresses_insert P key peer [] h = h.0
  Every-addresses_insert P key peer ((k, other) ∷ peers) h =
      elim (Bool-cases (bytes_eq.beq k key)) [
        | inl same ↦ (rw same at h).0
        | inr ne ↦ Every-addresses_insert P key peer peers (rw ne at h).1
      ]

  touched_peers :
      (t : Transport) (now : ℕ) (packet : Bytes) (source : Endpoint)
      → starts_with packet gameplay_prefix ≡ true
      → (peer : Peer) × ((peer.address ≡ source)
          × ((touch_gameplay_peer t now packet source).peers
              ≡ insert (gameplay_key source) peer t.peers))
  unfolding touch_gameplay_peer
  touched_peers t now packet source h = (
    record {
      address = source;
      name = value_or (codes "Peer") (read_field packet (codes "from") >>= hex_decode);
      instance_id = gameplay_key source;
      last_seen = now;
    },
    (refl, rw h),
  )

  -- Once a gameplay packet has been noted, its source is a destination, by its text.
  pub touch_gameplay_peer_known :
      (t : Transport) (now : ℕ) (packet : Bytes) (source : Endpoint)
      → starts_with packet gameplay_prefix ≡ true
      → member (address_to_string source) (
          map address_to_string
            (snapshot_destinations (touch_gameplay_peer t now packet source) none))
        ≡ true
  touch_gameplay_peer_known t now packet source h =
      let touched = touch_gameplay_peer t now packet source in
      let P : Endpoint → Type 0 = λ peer.
        is_excluded none peer ≡ false
        → member (address_to_string peer)
            (map address_to_string (snapshot_destinations touched none))
          ≡ true in
      let (peer, (is_source, e)) = touched_peers t now packet source h in
      let listed : Every P (touched.configured_peers ++ addresses touched.peers) =
        (snapshot_destinations_lem touched none).1.1 in
      let known = Every-right P touched.configured_peers (addresses touched.peers) listed in
      subst P is_source
        (Every-addresses_insert P (gameplay_key source) peer t.peers
          (subst (λ peers. Every P (addresses peers)) e known))
        not_excluded
    where
      not_excluded : is_excluded none source ≡ false
      not_excluded = unfold is_excluded in refl
