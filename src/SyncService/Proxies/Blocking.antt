-- ===== src/SyncService/Proxies/Blocking.antt =====
-- The blocked proxies after `RefreshProxyMitigation`.
use iedsync_together.Prelude.{
  ℕ, ◌≡◌, refl, ap, Bool, true, false, not, ◌&&◌, ◌||◌, List, [], ◌∷◌, ◌==◌, arith, Bool-cases, inl,
  inr, ==_iff,
}
use iedsync_together.Text.{Bytes}
use iedsync_together.ProxyResolver.{World}
use iedsync_together.Dict.{member, nat_eq}
use iedsync_together.SyncService.{Service, Snapshot}
use iedsync_together.SyncService.Proxies.{
  new_proxy, rebind, current_proxies, block_new, unblock_gone,
}

-- A snapshot is bound to this proxy.
abbrev pub is_bound : ℕ → List (Bytes × Snapshot) → Bool
is_bound proxy [] = false
is_bound proxy ((id, snapshot) ∷ rest) = snapshot.last_proxy == proxy || is_bound proxy rest

member_same : (p q : ℕ) (s : List ℕ) → (p == q) ≡ true → member p s ≡ member q s
member_same p q s same = ap (λ n. member n s) ((==_iff p q).0 same)

pub member-block_new :
    (world : World) (suppress : Bool) (proxy : ℕ) (current blocked : List ℕ)
    → member proxy (block_new world suppress current blocked).0
      ≡ (member proxy blocked || (suppress && member proxy current))
unfolding block_new member
member-block_new world suppress proxy [] blocked = ground arith
member-block_new world suppress proxy (p ∷ current) blocked =
    elim (Bool-cases (not suppress || member p blocked)) [
      | inl skip ↦ rw skip (
          ground (
            arith,
            member_same p proxy blocked,
            skip,
            member-block_new world suppress proxy current blocked,
          ))
      | inr new ↦
          rw new (ground (arith, new, member-block_new world suppress proxy current (p ∷ blocked)))
    ]

pub member-unblock_gone :
    (world : World) (suppress : Bool) (proxy : ℕ) (current blocked : List ℕ)
    → member proxy (unblock_gone world suppress current blocked).0
      ≡ (member proxy blocked && (suppress && member proxy current))
unfolding unblock_gone member
member-unblock_gone world suppress proxy current [] = ground arith
member-unblock_gone world suppress proxy current (p ∷ blocked) =
    elim (Bool-cases (not suppress || not (member p current))) [
      | inl gone ↦ rw gone (
          ground (
            arith,
            member_same p proxy current,
            gone,
            member-unblock_gone world suppress proxy current blocked,
          ))
      | inr kept ↦ rw kept (
          ground (
            arith,
            member_same p proxy current,
            kept,
            member-unblock_gone world suppress proxy current blocked,
          ))
    ]

module _ (world : World) (service : Service) where
  -- Binding again at once finds the same proxies.
  pub current_proxies-rebind :
      (snapshots : List (Bytes × Snapshot))
      → current_proxies world (rebind world snapshots) ≡ current_proxies world snapshots
  unfolding current_proxies rebind new_proxy
  current_proxies-rebind [] = refl
  current_proxies-rebind ((id, snapshot) ∷ rest) = rw (current_proxies-rebind rest)

  pub rebind-rebind :
      (snapshots : List (Bytes × Snapshot))
      → rebind world (rebind world snapshots) ≡ rebind world snapshots
  unfolding rebind new_proxy
  rebind-rebind [] = refl
  rebind-rebind ((id, snapshot) ∷ rest) = rw (rebind-rebind rest)
