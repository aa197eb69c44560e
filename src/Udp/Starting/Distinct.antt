-- ===== src/Udp/Starting/Distinct.antt =====
-- The peers that `Start` and its refreshes set.
use iedsync_together.Prelude.{
  ℕ, ltb, ◌-◌, ◌≡◌, refl, sym, ap, Bool, true, false, not, ◌&&◌, ◌||◌, List, [], ◌∷◌, ◌++◌, Option,
  none, some, arith, ◌==◌, if-every, Every, Every-append, Bool-cases, inl, inr, if◌then◌else◌,
  ◌>>=◌,
}
use iedsync_together.Text.{Bytes, is_empty}
use iedsync_together.Text.Search.{equal_self}
use iedsync_together.Text.Number.{Fmt}
use iedsync_together.Dict.{member, bytes_eq}
use iedsync_together.Config.{RemotePeer, Config}
use iedsync_together.Udp.{Windows, Endpoint, same_endpoint, address_to_string, Transport, Action}
use iedsync_together.Udp.Starting.{
  UdpHost, Disk, UdpTransport, resolve_remote_peer, any_same, stored_password, stored_peer,
  auto_secret, add_configured, auto_remote, refresh_skyrim_together_auto_config, configure_peers,
  run_bound, start_udp,
}

-- No two of the peers are the same endpoint.
abbrev pub AreDistinct : List Endpoint → Type 0
AreDistinct [] = Unit
AreDistinct (peer ∷ peers) =
    Every (λ other. same_endpoint peer other ≡ false) peers × AreDistinct peers

-- A transport whose configured peers are distinct, and which has a socket if it runs.
pub record IsUdpTransport (t : Transport) : Type 0 where
  pub distinct : AreDistinct t.configured_peers
  pub socket : (not t.running || t.has_socket) ≡ true

-- A transport whose configured peers are distinct, and which has a socket.
record IsBound (t : Transport) : Type 0 where
  distinct : AreDistinct t.configured_peers
  socket : t.has_socket ≡ true

same_endpoint-eq : (a b : Endpoint) → same_endpoint a b ≡ true → a ≡ b
unfolding same_endpoint
same_endpoint-eq a b h = ground (arith, h)

AreDistinct-append :
    (peers : List Endpoint) (peer : Endpoint)
    → any_same peer peers ≡ false
    → AreDistinct peers
    → AreDistinct (peers ++ peer ∷ [])
unfolding any_same
AreDistinct-append [] peer h d = (tt, tt)
AreDistinct-append (first ∷ peers) peer h (apart, d) = (
  Every-append _ peers (peer ∷ []) apart (ground (arith, h), tt),
  AreDistinct-append peers peer (ground (arith, h)) d,
)

add_configured-IsBound :
    (resolved : Endpoint) (t : Transport) → IsBound t → IsBound (add_configured resolved t)
unfolding add_configured
add_configured-IsBound resolved t v =
    if-every IsBound (any_same resolved t.configured_peers) t _ (λ _. v)
      (λ new. record {
        distinct = AreDistinct-append t.configured_peers resolved new v.distinct;
        socket = v.socket;
      })

-- A predicate of what is chosen by an optional value.
elim_either :
    {A : Type 0} (P : Transport → Type 0) (o : Option A) (t : Transport) (g : A → Transport)
    → P t
    → ((a : A) → P (g a))
    → P (elim o [ none ↦ t | some a ↦ g a ])
elim_either P none t g v h = v
elim_either P (some a) t g v h = h a

module _ ⦃w : Windows⦄ ⦃f : Fmt⦄ (host : UdpHost) where
  -- A predicate of the peers that a round of the loop leaves.
  configure_step :
      (P : List Endpoint → Type 0) (p : RemotePeer) (peers : List RemotePeer) (seen : List Bytes)
      → P (configure_peers host seen peers)
      → ((r : Endpoint)
          → member (address_to_string r) seen ≡ false
          → P (r ∷ configure_peers host (address_to_string r ∷ seen) peers))
      → P (configure_peers host seen (p ∷ peers))
  unfolding configure_peers
  configure_step P p peers seen skipped added = resolved (resolve_remote_peer host p)
    where
      known :
          (r : Endpoint) (b : Bool)
          → member (address_to_string r) seen ≡ b
          → P (elim b [
            | true ↦ configure_peers host seen peers
            | false ↦ r ∷ configure_peers host (address_to_string r ∷ seen) peers
          ])
      known r true e = skipped
      known r false e = added r e

      resolved :
          (found : Option Endpoint)
          → P (elim found [
            | none ↦ configure_peers host seen peers
            | some r ↦ elim (member (address_to_string r) seen) [
              | true ↦ configure_peers host seen peers
              | false ↦ r ∷ configure_peers host (address_to_string r ∷ seen) peers
            ]
          ])
      resolved none = skipped
      resolved (some r) = known r (member (address_to_string r) seen) refl

  apart_from :
      (seen : List Bytes) (peer r : Endpoint)
      → member (address_to_string peer) seen ≡ true
      → member (address_to_string r) seen ≡ false
      → same_endpoint peer r ≡ false
  apart_from seen peer r old new = elim (Bool-cases (same_endpoint peer r)) [
    | inl same ↦
        let e = ap (λ x. member (address_to_string x) seen) (same_endpoint-eq peer r same) in cc
    | inr other ↦ other
  ]

  configured_apart :
      (peers : List RemotePeer) (seen : List Bytes) (peer : Endpoint)
      → member (address_to_string peer) seen ≡ true
      → Every (λ other. same_endpoint peer other ≡ false) (configure_peers host seen peers)
  unfolding configure_peers member
  configured_apart [] seen peer h = tt
  configured_apart (p ∷ peers) seen peer h =
      configure_step (Every (λ other. same_endpoint peer other ≡ false)) p peers seen
        (configured_apart peers seen peer h)
        (λ r new. (
          apart_from seen peer r h new,
          configured_apart peers (address_to_string r ∷ seen) peer (ground (arith, h)),
        ))

  configure_peers-AreDistinct :
      (peers : List RemotePeer) (seen : List Bytes) → AreDistinct (configure_peers host seen peers)
  unfolding configure_peers member
  configure_peers-AreDistinct [] seen = tt
  configure_peers-AreDistinct (p ∷ peers) seen =
      configure_step AreDistinct p peers seen (configure_peers-AreDistinct peers seen) (λ r new. (
        configured_apart peers (address_to_string r ∷ seen) r
            (rw (equal_self (address_to_string r)) refl),
        configure_peers-AreDistinct peers (address_to_string r ∷ seen),
      ))

  auto_secret-IsBound : (disk : Disk) (t : Transport) → IsBound t → IsBound (auto_secret disk t)
  unfolding auto_secret
  auto_secret-IsBound disk t v =
      if-every IsBound
        (not (t.config.auto_shared_secret_from_str && is_empty t.config.shared_secret)) t
        (elim (stored_password disk t.config) [ none ↦ t | some password ↦ set password ]) (λ _. v)
        (λ _. elim_either IsBound (stored_password disk t.config) t set v (λ password.
          if-every IsBound (is_empty password) t (record t { shared_secret = password }) (λ _. v)
            (λ _. record { distinct = v.distinct; socket = v.socket })))
    where
      set : Bytes → Transport
      set password = if is_empty password then t else record t { shared_secret = password }

  auto_remote-IsBound :
      (disk : Disk) (t : Transport) → IsBound t → IsBound (auto_remote host disk t)
  unfolding auto_remote
  auto_remote-IsBound disk t v =
      if-every IsBound (not t.config.auto_remote_from_str || t.config.relay_mode) t
        (elim (stored_peer disk t.config >>= resolve_remote_peer host) [
          | none ↦ t
          | some resolved ↦ add_configured resolved t
        ])
        (λ _. v)
        (λ _.
          elim_either IsBound (stored_peer disk t.config >>= resolve_remote_peer host) t
            (λ resolved. add_configured resolved t) v
            (λ resolved. add_configured-IsBound resolved t v))

  refresh-IsBound :
      (disk : Disk) (now : ℕ) (force : Bool) (u : UdpTransport)
      → IsBound u.transport
      → IsBound (refresh_skyrim_together_auto_config host disk now force u).transport
  unfolding refresh_skyrim_together_auto_config
  refresh-IsBound disk now force u v =
      if-every IsBoundUdp
        (not u.transport.config.auto_remote_from_str
          && not u.transport.config.auto_shared_secret_from_str)
        u (if early then u else refreshed) (λ _. v)
        (λ _.
          if-every IsBoundUdp early u refreshed (λ _. v)
            (λ _.
              auto_remote-IsBound disk (auto_secret disk u.transport)
                (auto_secret-IsBound disk u.transport v)))
    where
      IsBoundUdp : UdpTransport → Type 0
      IsBoundUdp u' = IsBound u'.transport

      early : Bool
      early = not force && not (u.last_refresh == 0) && ltb (now - u.last_refresh) 5000

      refreshed : UdpTransport
      refreshed = record {
        transport = auto_remote host disk (auto_secret disk u.transport);
        last_refresh = now;
      }

  run_bound-IsUdpTransport :
      (disk : Disk) (now : ℕ) (t : Transport)
      → IsUdpTransport (run_bound host disk now t).0.transport
        × ((run_bound host disk now t).0.transport.running ≡ true)
  unfolding run_bound
  run_bound-IsUdpTransport disk now t =
      let v = refresh-IsBound disk now true _ (record {
        distinct = configure_peers-AreDistinct t.config.remote_peers [];
        socket = refl;
      }) in
      (record { distinct = v.distinct; socket = v.socket }, refl)

  -- `Start` gives true exactly if the transport runs then, and keeps that a running transport has a
  -- socket and that no two of the configured peers are the same endpoint, the peer that the discovery
  -- of the server adds included.
  pub start_udp-IsUdpTransport :
      (disk : Disk) (now : ℕ) (config : Config) (has_handler : Bool) (u : UdpTransport)
      → IsUdpTransport u.transport
      → let (started, result, sent) = start_udp host disk now config has_handler u in
        IsUdpTransport started.transport × (result ≡ started.transport.running)
  unfolding start_udp
  start_udp-IsUdpTransport disk now config has_handler u v =
      if-every IsStarted u.transport.running _ _ (λ running. (v, sym running))
        (λ stopped.
          if-every IsStarted (not config.network_enabled || not has_handler) _ _
            (λ off. (v, sym stopped))
            (λ on.
              if-every IsStarted (not host.wsa_starts || not host.makes_socket || not host.binds) _
                _
                (λ fails. (record { distinct = v.distinct; socket = rw stopped refl }, sym stopped))
                (λ bound.
                  let (ok, runs) = run_bound-IsUdpTransport disk now reset in (ok, sym runs))))
    where
      reset : Transport
      reset = record (u.transport) {
        config = config;
        shared_secret = config.shared_secret;
        has_socket = not host.wsa_starts && u.transport.has_socket;
      }

      IsStarted : UdpTransport × Bool × List Action → Type 0
      IsStarted (started, result, sent) =
          IsUdpTransport started.transport × (result ≡ started.transport.running)
