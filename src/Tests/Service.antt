-- ===== src/Tests/Service.antt =====
-- The service at concrete inputs.
use mathlib.Core.List.{Mem}
use iedsync_together.Prelude.{leb, ◌≤◌, ◌≡◌, refl, true, false, [], some, arith}
use iedsync_together.Text.{Bytes, codes, equal}
use iedsync_together.Engine.{Form, lookup_actor}
use iedsync_together.FormIdentity.Slots.{FormIdentity, slot_count}
use iedsync_together.FormIdentity.Forms.{resolve_form_identity}
use iedsync_together.Packet.{build_packet, state_payload}
use iedsync_together.ProxyResolver.{is_likely_remote_player_proxy}
use iedsync_together.Dict.{lookup, nat_eq, bytes_eq, EveryValue}
use iedsync_together.SyncService.{Snapshot}
use iedsync_together.SyncService.Remote.{proxy_id, snapshot_of, restart, handle_packet}
use iedsync_together.SyncService.Remote.Store.{
  IsSnapshot, NotBack, handle_packet-IsSnapshot, handle_packet-NotBack,
}
use iedsync_together.SyncService.Remote.Delivery.{handle_packet-build_packet}
use iedsync_together.SyncService.Proxies.{refresh_proxy_mitigation}
use iedsync_together.SyncService.Proxies.Settled.{refresh_proxy_mitigation_settles}
use iedsync_together.SyncService.Query.{
  form, identity_at, find_bound, answer_identity, query_remote_slot,
}
use iedsync_together.SyncService.Query.Answers.{query_remote_slot-form}
use iedsync_together.Tests.Printing.{numerals}
use iedsync_together.Tests.Data.{
  update, update-IsSendable, worn, worn-IsSlot, world, engine, service, snapshot,
}

abbrev packet : Bytes
packet = build_packet (codes "7-F") (codes "Ann") (state_payload 3 worn)

snapshot_there : snapshot_of (codes "7-F") service.snapshots ≡ snapshot
unfolding snapshot_of lookup equal
snapshot_there = refl

handle_packet-build_packet_example :
    lookup (codes "7-F") (handle_packet world service packet).snapshots
    ≡ some (record {
      slots = worn;
      revision = 3;
      character_name = codes "Ann";
      last_proxy = proxy_id world (codes "Ann");
    })
handle_packet-build_packet_example =
    handle_packet-build_packet world service update update-IsSendable fresh
  where
    fresh : (restart update (snapshot_of (codes "7-F") service.snapshots)).revision ≤ 3
    fresh = rw snapshot_there (unfold restart equal in omega arith)

snapshot-IsSnapshot : IsSnapshot snapshot
snapshot-IsSnapshot = record { named = λ e. ground arith; slots_ok = (refl, worn-IsSlot) }

handle_packet-IsSnapshot_example :
    EveryValue IsSnapshot (handle_packet world service packet).snapshots
handle_packet-IsSnapshot_example =
    handle_packet-IsSnapshot world service packet (snapshot-IsSnapshot, tt)

handle_packet-NotBack_example :
    (after : Snapshot) × (lookup (codes "7-F") (handle_packet world service packet).snapshots
      ≡ some after)
    × NotBack snapshot after
handle_packet-NotBack_example =
    handle_packet-NotBack world service packet (codes "7-F") snapshot (unfold lookup equal in refl)

put_shield : query_remote_slot engine service 0xFF000010 0 ≡ form 11
unfolding query_remote_slot is_likely_remote_player_proxy find_bound answer_identity identity_at
    resolve_form_identity
put_shield = refl

query_remote_slot-form_example :
    (leb slot_count 0 ≡ false)
    × (is_likely_remote_player_proxy (lookup_actor engine 0xFF000010) ≡ true)
    × ((id : Bytes) × (s : Snapshot) × (i : FormIdentity) × (resolved : Form) × Mem
          (id, s)
          service.snapshots
        × (s.last_proxy ≡ 0xFF000010)
        × (identity_at s.slots 0 ≡ some i)
        × (resolve_form_identity engine i ≡ some resolved)
        × (resolved.form_id ≡ 11))
query_remote_slot-form_example = query_remote_slot-form engine service 0xFF000010 0 11 put_shield

refresh_proxy_mitigation_settles_example :
    refresh_proxy_mitigation world (refresh_proxy_mitigation world service).0
    ≡ ((refresh_proxy_mitigation world service).0, [])
refresh_proxy_mitigation_settles_example = refresh_proxy_mitigation_settles world service
