-- ===== src/Udp/Peers/Destinations.antt =====
-- `SnapshotDestinations`.
use iedsync_together.Prelude.{
  ◌≡◌, refl, ap, sym, subst, true, false, ◌||◌, List, [], ◌∷◌, ◌++◌, Option, map, arith, Every,
  Every-append, Every-map, append-nil, Bool-cases, inl, inr,
}
use iedsync_together.Text.{Bytes}
use iedsync_together.Text.Search.{equal_self}
use iedsync_together.Text.Number.{Fmt}
use iedsync_together.Dict.{member, bytes_eq}
use iedsync_together.Udp.{Windows, Endpoint, address_to_string, Transport}
use iedsync_together.Udp.Peers.{is_excluded, collect, addresses, snapshot_destinations}

member_here : (x : Bytes) (s : List Bytes) → member x (x ∷ s) ≡ true
unfolding member
member_here x s = rw (equal_self x)

member_nil : (x : Bytes) → member x [] ≡ false
unfolding member
member_nil x = refl

-- The endpoints have different texts, and none of them is among these.
abbrev pub AllNew : ⦃w : Windows⦄ → ⦃f : Fmt⦄ → List Bytes → List Endpoint → Type 0
AllNew seen [] = Unit
AllNew seen (peer ∷ peers) =
    (member (address_to_string peer) seen ≡ false) × AllNew (address_to_string peer ∷ seen) peers

module _ ⦃w : Windows⦄ ⦃f : Fmt⦄ (excluded : Option Endpoint) where
  collect_excludes :
      (seen : List Bytes) (peers : List Endpoint)
      → Every (λ peer. is_excluded excluded peer ≡ false) (collect excluded seen peers).0
  unfolding collect
  collect_excludes seen [] = tt
  collect_excludes seen (peer ∷ peers) =
      elim (Bool-cases (is_excluded excluded peer || member (address_to_string peer) seen)) [
        | inl skip ↦ rw skip (collect_excludes seen peers)
        | inr take ↦
            rw take (ground (arith, take), collect_excludes (address_to_string peer ∷ seen) peers)
      ]

  collect-AllNew :
      (seen : List Bytes) (peers more : List Endpoint)
      → AllNew (collect excluded seen peers).1 more
      → AllNew seen ((collect excluded seen peers).0 ++ more)
  unfolding collect
  collect-AllNew seen [] more h = h
  collect-AllNew seen (peer ∷ peers) more h =
      elim (Bool-cases (is_excluded excluded peer || member (address_to_string peer) seen)) [
        | inl skip ↦ rw skip (collect-AllNew seen peers more (rw skip at h))
        | inr take ↦ rw take (
          ground (arith, take),
          collect-AllNew (address_to_string peer ∷ seen) peers more (rw take at h),
        )
      ]

  -- A text that is seen once stays seen, and what is seen at the end was seen before or is collected.
  seen_lem :
      (text : Bytes) (seen : List Bytes) (peers : List Endpoint)
      → member text (collect excluded seen peers).1
        ≡ (member text seen || member text (map address_to_string (collect excluded seen peers).0))
  unfolding collect member
  seen_lem text seen [] = ground arith
  seen_lem text seen (peer ∷ peers) =
      elim (Bool-cases (is_excluded excluded peer || member (address_to_string peer) seen)) [
        | inl skip ↦ rw skip (seen_lem text seen peers)
        | inr take ↦ rw take (ground (arith, seen_lem text (address_to_string peer ∷ seen) peers))
      ]

  abbrev Covers : List Bytes → List Endpoint → Type 0
  Covers seen =
      Every
        (λ peer. is_excluded excluded peer ≡ false → member (address_to_string peer) seen ≡ true)

  module _ (seen : List Bytes) (peer : Endpoint) (peers : List Endpoint) where
    collect_skip :
        (is_excluded excluded peer || member (address_to_string peer) seen) ≡ true
        → (collect excluded seen (peer ∷ peers)).1 ≡ (collect excluded seen peers).1
    unfolding collect
    collect_skip skip = rw skip

    collect_take :
        (is_excluded excluded peer || member (address_to_string peer) seen) ≡ false
        → (collect excluded seen (peer ∷ peers)).1
          ≡ (collect excluded (address_to_string peer ∷ seen) peers).1
    unfolding collect
    collect_take take = rw take

  covers :
      (seen : List Bytes) (peers : List Endpoint) → Covers (collect excluded seen peers).1 peers
  covers seen [] = tt
  covers seen (peer ∷ peers) =
      let text = address_to_string peer in
      elim (Bool-cases (is_excluded excluded peer || member text seen)) [
        | inl skip ↦
            subst (λ s. Covers s (peer ∷ peers)) (sym (collect_skip seen peer peers skip))
              (λ kept. ground (arith, skip, kept, seen_lem text seen peers), covers seen peers)
        | inr take ↦
            subst (λ s. Covers s (peer ∷ peers)) (sym (collect_take seen peer peers take))
              (
                λ kept. ground (arith, seen_lem text (text ∷ seen) peers, member_here text seen),
                covers (text ∷ seen) peers,
              )
      ]

member-append : (x : Bytes) (a b : List Bytes) → member x (a ++ b) ≡ (member x a || member x b)
unfolding member
member-append x [] b = refl
member-append x (y ∷ a) b = ground (arith, member-append x a b)

map-append_lem :
    ⦃w : Windows⦄
    → ⦃f : Fmt⦄ → (a b : List Endpoint)
    → map address_to_string (a ++ b) ≡ map address_to_string a ++ map address_to_string b
map-append_lem [] b = refl
map-append_lem (x ∷ a) b = ap (◌∷◌ (address_to_string x)) (map-append_lem a b)

module _ ⦃w : Windows⦄ ⦃f : Fmt⦄ (t : Transport) (excluded : Option Endpoint) (text : Bytes) where
  both : member text (map address_to_string (snapshot_destinations t excluded)) ≡ (
      member text (map address_to_string (collect excluded [] t.configured_peers).0)
      || member text (
          map address_to_string
            (collect excluded (collect excluded [] t.configured_peers).1 (addresses t.peers)).0))
  unfolding snapshot_destinations
  both = rw (map-append_lem, member-append)

  early :
      member text (collect excluded [] t.configured_peers).1 ≡ true
      → member text (map address_to_string (snapshot_destinations t excluded)) ≡ true
  early h = ground (arith, both, seen_lem excluded text [] t.configured_peers, member_nil text)

  late :
      member text
          (collect excluded (collect excluded [] t.configured_peers).1 (addresses t.peers)).1
        ≡ true
      → member text (map address_to_string (snapshot_destinations t excluded)) ≡ true
  late h = ground (
    arith,
    both,
    seen_lem excluded text [] t.configured_peers,
    member_nil text,
    seen_lem excluded text (collect excluded [] t.configured_peers).1 (addresses t.peers),
  )

-- The destinations leave out the excluded endpoint, no two of them have the same text, and every
-- configured or known peer that is not excluded is among them by its text.
pub snapshot_destinations_lem :
    ⦃w : Windows⦄
    → ⦃f : Fmt⦄ → (t : Transport) (excluded : Option Endpoint)
    → let found = snapshot_destinations t excluded in
      Every (λ peer. is_excluded excluded peer ≡ false) found
      × (AllNew [] found
          × Every
              (λ peer.
                is_excluded excluded peer ≡ false
                → member (address_to_string peer) (map address_to_string found) ≡ true)
              (t.configured_peers ++ addresses t.peers))
unfolding snapshot_destinations
snapshot_destinations_lem t excluded =
    let one = collect excluded [] t.configured_peers in
    let two = collect excluded one.1 (addresses t.peers) in
    (
      Every-append _ one.0 two.0 (collect_excludes excluded [] t.configured_peers)
          (collect_excludes excluded one.1 (addresses t.peers)),
      (
        collect-AllNew excluded [] t.configured_peers two.0 (
            subst (AllNew one.1) (append-nil two.0)
              (collect-AllNew excluded one.1 (addresses t.peers) [] tt)),
        Every-append _ t.configured_peers (addresses t.peers)
            (Every-map _ _ (λ peer c kept. early t excluded (address_to_string peer) (c kept)) _
              (covers excluded [] t.configured_peers))
            (Every-map _ _ (λ peer c kept. late t excluded (address_to_string peer) (c kept)) _
              (covers excluded one.1 (addresses t.peers))),
      ),
    )
