-- ===== src/SyncService/Proxies/Settled.antt =====
-- `RefreshProxyMitigation` twice in a row.
use iedsync_together.Prelude.{
  ℕ, ◌≡◌, refl, Bool, true, false, not, ◌&&◌, ◌||◌, List, [], ◌∷◌, ==_iff, arith,
}
use iedsync_together.ProxyResolver.{World}
use iedsync_together.Dict.{member, nat_eq}
use iedsync_together.SyncService.{Service}
use iedsync_together.SyncService.Proxies.{
  current_proxies, block_new, unblock_gone, refresh_proxy_mitigation,
}
use iedsync_together.SyncService.Proxies.Blocking.{
  member-block_new, member-unblock_gone, current_proxies-rebind, rebind-rebind,
}

member_first : (p : ℕ) (s : List ℕ) → member p (p ∷ s) ≡ true
unfolding member
member_first p s = ground (arith, ==_iff p p)

member_later : (p q : ℕ) (s : List ℕ) → member p s ≡ true → member p (q ∷ s) ≡ true
unfolding member
member_later p q s h = ground arith

module _ (world : World) (suppress : Bool) where
  block_nothing :
      (current blocked : List ℕ)
      → ((p : ℕ) → member p current ≡ true → (suppress && not (member p blocked)) ≡ false)
      → block_new world suppress current blocked ≡ (blocked, [])
  unfolding block_new
  block_nothing [] blocked h = refl
  block_nothing (q ∷ current) blocked h =
      rw (skips q blocked (h q (member_first q current)))
        (block_nothing current blocked (λ p m. h p (member_later p q current m)))
    where
      skips :
          (q : ℕ) (blocked : List ℕ)
          → (suppress && not (member q blocked)) ≡ false
          → (not suppress || member q blocked) ≡ true
      skips q blocked e = ground arith

  unblock_nothing :
      (current blocked : List ℕ)
      → ((p : ℕ) → member p blocked ≡ true → (suppress && member p current) ≡ true)
      → unblock_gone world suppress current blocked ≡ (blocked, [])
  unfolding unblock_gone
  unblock_nothing current [] h = refl
  unblock_nothing current (q ∷ blocked) h = rw (
    unblock_nothing current blocked (λ p m. h p (member_later p q blocked m)),
    stays q (h q (member_first q blocked)),
  )
    where
      stays :
          (q : ℕ)
          → (suppress && member q current) ≡ true
          → (not suppress || not (member q current)) ≡ false
      stays q e = ground arith

-- A second refresh in the same world changes nothing and blocks or unblocks nobody.
pub refresh_proxy_mitigation_settles :
    (world : World) (service : Service)
    → let service' = (refresh_proxy_mitigation world service).0 in
      refresh_proxy_mitigation world service' ≡ (service', [])
unfolding refresh_proxy_mitigation
refresh_proxy_mitigation_settles world service =
    let current = current_proxies world service.snapshots in
    let more = (block_new world service.suppress current service.blocked).0 in
    let kept = (unblock_gone world service.suppress current more).0 in
    let is_kept : (p : ℕ) → member p kept ≡ (service.suppress && member p current) = λ p. ground (
      arith,
      member-unblock_gone world service.suppress p current more,
      member-block_new world service.suppress p current service.blocked,
    ) in
    rw (
      current_proxies-rebind world service service.snapshots,
      rebind-rebind world service service.snapshots,
      block_nothing world service.suppress current kept (λ p m. ground (arith, m, is_kept p)),
      unblock_nothing world service.suppress current kept (λ p m. ground (arith, m, is_kept p)),
    )
