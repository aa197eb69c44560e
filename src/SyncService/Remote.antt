-- ===== src/SyncService/Remote.antt =====
-- `HandlePacket`: what a packet is taken for, and what it stores.
pub mod Store
pub mod Delivery
use iedsync_together.Prelude.{
  ℕ, zero, suc, ◌+◌, ◌≡◌, refl, Bool, true, false, not, ◌&&◌, ◌||◌, List, [], ◌∷◌, ◌++◌, Option,
  none, some, ltb, ◌==◌, if◌then◌else◌, ◌>>=◌, is_some,
}
use iedsync_together.Text.{Bytes, codes, equal, starts_with, find, is_empty}
use iedsync_together.Text.Number.{stoull}
use iedsync_together.FormIdentity.Hex.{hex_decode}
use iedsync_together.FormIdentity.Slots.{SlotState, decode_slots}
use iedsync_together.ProxyResolver.{World, find_proxy}
use iedsync_together.Packet.{gameplay_prefix, read_field}
use iedsync_together.Dict.{lookup, insert, bytes_eq}
use iedsync_together.SyncService.{Service, Snapshot, empty_snapshot}

-- The fields of a packet that carries a state.
pub record Update : Type 0 where
  pub instance_id : Bytes
  pub sender : Bytes
  pub slots : SlotState
  pub revision : ℕ

-- A value that must not be empty.
non_empty : Bytes → Option Bytes
non_empty value = if is_empty value then none else some value

parse_fields : Bytes → Option Update
unfolding non_empty
parse_fields packet = do
  instance_id ← read_field packet (codes "id") >>= non_empty
  encoded_sender ← read_field packet (codes "from")
  revision_text ← read_field packet (codes "rev")
  slots_text ← read_field packet (codes "slots")
  sender ← hex_decode encoded_sender >>= non_empty
  slots ← decode_slots slots_text
  revision ← stoull 10 revision_text
  some (record { instance_id = instance_id; sender = sender; slots = slots; revision = revision })

-- The first half of `HandlePacket`. `none` is each of its early returns.
unfoldable pub parse_update : Bytes → Option Update
unfolding parse_fields
parse_update packet =
    if not (starts_with packet gameplay_prefix) || not (is_some (find packet (codes "|STATE|")))
    then none
    else parse_fields packet

-- The id of the proxy that stands for a player, or `0`.
unfoldable pub proxy_id : World → Bytes → ℕ
proxy_id world name = elim (find_proxy world name) [ none ↦ 0 | some proxy ↦ proxy.form_id ]

-- `_remoteSnapshots[id]`.
unfoldable pub snapshot_of : Bytes → List (Bytes × Snapshot) → Snapshot
snapshot_of id snapshots = elim (lookup id snapshots) [ none ↦ empty_snapshot | some s ↦ s ]

-- Another character under the same id starts afresh.
unfoldable pub restart : Update → Snapshot → Snapshot
restart update snapshot =
    if not (is_empty snapshot.character_name) && not (equal snapshot.character_name update.sender)
    then empty_snapshot
    else snapshot

-- The snapshot under its lock: a state that is older than the stored one is dropped.
unfoldable pub store_update : Update → ℕ → Snapshot → Snapshot
unfolding restart
store_update update proxy snapshot =
    let named = record (restart update snapshot) { character_name = update.sender } in
    if ltb update.revision named.revision
    then named
    else record named { slots = update.slots; revision = update.revision; last_proxy = proxy }

unfoldable pub handle_packet : World → Service → Bytes → Service
handle_packet world service packet = elim (parse_update packet) [
  | none ↦ service
  | some update ↦ record service {
    snapshots =
        insert update.instance_id
          (store_update update (proxy_id world update.sender)
            (snapshot_of update.instance_id service.snapshots))
          service.snapshots;
  }
]

module _ (world : World) (service : Service) (packet : Bytes) where
  pub handle_packet-none : parse_update packet ≡ none → handle_packet world service packet ≡ service
  unfolding handle_packet
  handle_packet-none e = rw (e, handle_packet)

  pub handle_packet-some :
      (u : Update)
      → parse_update packet ≡ some u
      → (handle_packet world service packet).snapshots
        ≡ insert u.instance_id
            (store_update u (proxy_id world u.sender) (snapshot_of u.instance_id service.snapshots))
            service.snapshots
  unfolding handle_packet
  handle_packet-some u e = rw (e, handle_packet)
