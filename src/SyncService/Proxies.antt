-- ===== src/SyncService/Proxies.antt =====
-- `RefreshProxyMitigation`, `Reset` and `Tick`: the snapshots are bound to the proxies that stand for
-- their players, and the proxies are blocked.
pub mod Blocking
pub mod Settled
use iedsync_together.Prelude.{
  ℕ, ◌≡◌, refl, Bool, true, false, not, ◌&&◌, ◌||◌, List, [], ◌∷◌, ◌++◌, Option, none, some, ◌==◌,
  if◌then◌else◌,
}
use iedsync_together.Text.{Bytes, is_empty}
use iedsync_together.Engine.{Engine, Actor, lookup_actor}
use iedsync_together.FormIdentity.Slots.{SlotState}
use iedsync_together.ProxyResolver.{World}
use iedsync_together.Dict.{member, add, nat_eq}
use iedsync_together.IedBridge.{BlockCall, set_actor_blocked}
use iedsync_together.SyncService.{Service, Snapshot, Effect, block}
use iedsync_together.SyncService.Remote.{proxy_id}
use iedsync_together.Text.Number.{Fmt}
use iedsync_together.SyncService.Capture.{Moment, on_local_capture}

-- The proxy that a snapshot is bound to: that of its character, or `0`.
unfoldable pub new_proxy : World → Snapshot → ℕ
new_proxy world snapshot =
    if is_empty snapshot.character_name then 0 else proxy_id world snapshot.character_name

-- The first loop: every snapshot is bound anew, and the proxies that were found are collected.
unfoldable pub rebind : World → List (Bytes × Snapshot) → List (Bytes × Snapshot)
rebind world [] = []
rebind world ((id, snapshot) ∷ rest) =
    (id, record snapshot { last_proxy = new_proxy world snapshot }) ∷ rebind world rest

unfoldable pub current_proxies : World → List (Bytes × Snapshot) → List ℕ
current_proxies world [] = []
current_proxies world ((id, snapshot) ∷ rest) =
    let others = current_proxies world rest in
    let proxy = new_proxy world snapshot in if proxy == 0 then others else add proxy others

-- `SetActorBlocked` on the actor of an id, if there is one.
unfoldable pub block_actor : World → ℕ → Bool → List Effect
block_actor world form_id blocked = elim (lookup_actor world.engine form_id) [
  | none ↦ []
  | some actor ↦ elim (set_actor_blocked world.around (some actor) blocked) [
    | none ↦ []
    | some call ↦ block call ∷ []
  ]
]

-- The second loop, over the proxies that were found.
unfoldable pub block_new : World → Bool → List ℕ → List ℕ → List ℕ × List Effect
block_new world suppress [] blocked = (blocked, [])
block_new world suppress (proxy ∷ proxies) blocked =
    let skip = not suppress || member proxy blocked in
    let (blocked', effects) =
      block_new world suppress proxies (if skip then blocked else proxy ∷ blocked) in
    (blocked', if skip then effects else block_actor world proxy true ++ effects)

-- The third loop, over the proxies that are blocked.
unfoldable pub unblock_gone : World → Bool → List ℕ → List ℕ → List ℕ × List Effect
unblock_gone world suppress current [] = ([], [])
unblock_gone world suppress current (proxy ∷ blocked) =
    let (blocked', effects) = unblock_gone world suppress current blocked in
    if not suppress || not (member proxy current)
    then (blocked', block_actor world proxy false ++ effects)
    else (proxy ∷ blocked', effects)

unfoldable pub refresh_proxy_mitigation : World → Service → Service × List Effect
refresh_proxy_mitigation world service =
    let current = current_proxies world service.snapshots in
    let (more, blocking) = block_new world service.suppress current service.blocked in
    let (kept, unblocking) = unblock_gone world service.suppress current more in
    (
      record service { snapshots = rebind world service.snapshots; blocked = kept },
      blocking ++ unblocking,
    )

unblock_all : World → List ℕ → List Effect
unblock_all world [] = []
unblock_all world (proxy ∷ blocked) = block_actor world proxy false ++ unblock_all world blocked

unfoldable pub reset : World → Service → Service × List Effect
unfolding unblock_all
reset world service = (
  record service { snapshots = []; blocked = []; has_local_slots = false; capture_pending = false },
  unblock_all world service.blocked,
)

-- The callback of `Tick`, for each state that the capture has delivered at once.
unfoldable pub captured : ⦃f : Fmt⦄ → Moment → Service → List SlotState → Service × List Effect
captured moment service [] = (service, [])
captured moment service (slots ∷ more) =
    let (service', effects) =
      on_local_capture moment (record service { capture_pending = false }) slots in
    let (last, others) = captured moment service' more in (last, effects ++ others)

-- `capture` is what `CapturePlayerSlots` gives: `none` if it refused, and otherwise the states that
-- its callback got before it returned.
unfoldable pub tick :
    ⦃f : Fmt⦄ → World → Moment → Option (List SlotState) → Service → Service × List Effect
tick world moment capture service =
    if not service.running
    then (service, [])
    else let (bound, effects) = refresh_proxy_mitigation world service in
      if bound.capture_pending then (bound, effects) else elim capture [
        | none ↦ (record bound { capture_pending = false }, effects)
        | some delivered ↦
            let (last, more) =
              captured moment (record bound { capture_pending = true }) delivered in
            (last, effects ++ more)
      ]
