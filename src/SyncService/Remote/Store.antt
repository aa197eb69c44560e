-- ===== src/SyncService/Remote/Store.antt =====
-- The snapshots before and after `HandlePacket`.
use iedsync_together.Prelude.{
  ℕ, ◌≤◌, ◌≡◌, ◌≢◌, not, ◌&&◌, List, [], some, ltb, arith, Option-cases, Bool-cases, inl, inr, ◌⊎◌,
  some_inj, Every, length, subst, >>=-eq-some, ◌>>=◌,
}
use iedsync_together.Text.{Bytes, codes, equal, is_empty}
use iedsync_together.Text.Search.{equal_iff}
use iedsync_together.Text.Number.{stoull}
use iedsync_together.FormIdentity.Hex.{hex_decode}
use iedsync_together.FormIdentity.Slots.{SlotState, slot_count, decode_slots}
use iedsync_together.FormIdentity.Slots.Sound.{decode_slots_sound}
use iedsync_together.FormIdentity.Slots.RoundTrip.{IsSlot}
use iedsync_together.ProxyResolver.{World}
use iedsync_together.Packet.{read_field}
use iedsync_together.Dict.{
  lookup, insert, bytes_eq, lookup-insert, lookup-insert_ne, EveryValue, EveryValue-insert,
  lookup-EveryValue,
}
use iedsync_together.SyncService.{Service, Snapshot}
use iedsync_together.SyncService.Remote.{
  Update, parse_fields, non_empty, parse_update, proxy_id, snapshot_of, restart, store_update,
  handle_packet, handle_packet-none, handle_packet-some,
}

store_update-revision :
    (u : Update) (proxy : ℕ) (s : Snapshot)
    → let after = store_update u proxy s in
      (s.character_name ≢ after.character_name) ⊎ (s.revision ≤ after.revision)
unfolding store_update
store_update-revision u proxy s = ground (arith, equal_iff s.character_name u.sender)

abbrev pub IsSlots : SlotState → Type 0
IsSlots slots = (length slots ≡ slot_count) × Every IsSlot slots

pub record IsUpdate (u : Update) : Type 0 where
  pub named : u.sender ≢ []
  pub slots_ok : IsSlots u.slots

pub record IsSnapshot (s : Snapshot) : Type 0 where
  pub named : s.character_name ≢ []
  pub slots_ok : IsSlots s.slots

non_empty-ne-nil : (v : Bytes) {w : Bytes} → non_empty v ≡ some w → w ≢ []
unfolding non_empty
non_empty-ne-nil v h = ground arith

parse_fields-IsUpdate : (packet : Bytes) {u : Update} → parse_fields packet ≡ some u → IsUpdate u
unfolding parse_fields
parse_fields-IsUpdate packet {u} h =
    let (id, _, h1) = >>=-eq-some (read_field packet (codes "id") >>= non_empty) _ h in
    let (from, _, h2) = >>=-eq-some (read_field packet (codes "from")) _ h1 in
    let (rev, _, h3) = >>=-eq-some (read_field packet (codes "rev")) _ h2 in
    let (text, _, h4) = >>=-eq-some (read_field packet (codes "slots")) _ h3 in
    let (sender, e5, h5) = >>=-eq-some (hex_decode from >>= non_empty) _ h4 in
    let (slots, e6, h6) = >>=-eq-some (decode_slots text) _ h5 in
    let (revision, _, h7) = >>=-eq-some (stoull 10 rev) _ h6 in
    let (raw, _, e8) = >>=-eq-some (hex_decode from) non_empty e5 in
    subst IsUpdate (some_inj h7)
      (record { named = non_empty-ne-nil raw e8; slots_ok = decode_slots_sound text slots e6 })

parse_update-IsUpdate : (packet : Bytes) {u : Update} → parse_update packet ≡ some u → IsUpdate u
unfolding parse_update
parse_update-IsUpdate packet h = parse_fields-IsUpdate packet (ground arith)

restart-IsSlots : (u : Update) (s : Snapshot) → IsSlots s.slots → IsSlots (restart u s).slots
unfolding restart
restart-IsSlots u s v =
    elim (Bool-cases (not (is_empty s.character_name) && not (equal s.character_name u.sender))) [
      | inl changed ↦ rw (changed, restart) (omega arith)
      | inr same ↦ rw (same, restart) v
    ]

store_update-IsSnapshot :
    (u : Update) (proxy : ℕ) (s : Snapshot)
    → IsUpdate u
    → IsSlots s.slots
    → IsSnapshot (store_update u proxy s)
store_update-IsSnapshot u proxy s v slots_ok =
    let kept = restart-IsSlots u s slots_ok in
    elim (Bool-cases (ltb u.revision (restart u s).revision)) [
      | inl stale ↦
          unfold store_update in
          rw (stale, store_update) (record { named = v.named; slots_ok = kept })
      | inr fresh ↦
          unfold store_update in
          rw (fresh, store_update) (record { named = v.named; slots_ok = v.slots_ok })
    ]

snapshot_of-IsSlots :
    (id : Bytes) (m : List (Bytes × Snapshot))
    → EveryValue IsSnapshot m
    → IsSlots (snapshot_of id m).slots
unfolding snapshot_of
snapshot_of-IsSlots id m h = elim (Option-cases (lookup id m)) [
  | inl e ↦ rw (e, snapshot_of) (omega arith)
  | inr (s, e) ↦ rw (e, snapshot_of) (lookup-EveryValue IsSnapshot id m e h).slots_ok
]

-- If every snapshot has a name and 19 slots that are each empty or an identity that can be sent,
-- then so it is after any packet, whatever bytes it holds.
pub handle_packet-IsSnapshot :
    (world : World) (service : Service) (packet : Bytes)
    → EveryValue IsSnapshot service.snapshots
    → EveryValue IsSnapshot (handle_packet world service packet).snapshots
handle_packet-IsSnapshot world service packet h = elim (Option-cases (parse_update packet)) [
  | inl e ↦ rw (handle_packet-none world service packet e) h
  | inr (u, e) ↦ rw (handle_packet-some world service packet u e) (
      EveryValue-insert IsSnapshot u.instance_id _ service.snapshots
        (store_update-IsSnapshot u _ _ (parse_update-IsUpdate packet e)
          (snapshot_of-IsSlots u.instance_id service.snapshots h))
        h)
]

-- What is said of a snapshot before and the one after it: the character has changed, or the revision
-- is at least the old one.
abbrev pub NotBack : Snapshot → Snapshot → Type 0
NotBack before after =
    (before.character_name ≢ after.character_name) ⊎ (before.revision ≤ after.revision)

insert-NotBack :
    (u : Update) (proxy : ℕ) (id : Bytes) (before : Snapshot) (m : List (Bytes × Snapshot))
    → lookup id m ≡ some before
    → (after : Snapshot) × (lookup id
          (insert u.instance_id (store_update u proxy (snapshot_of u.instance_id m)) m)
        ≡ some after)
      × NotBack before after
insert-NotBack u proxy id before m h = elim (Bool-cases (equal u.instance_id id)) [
  | inl same ↦
      let here : snapshot_of u.instance_id m ≡ before =
        unfold snapshot_of in rw ((equal_iff u.instance_id id).0 same, h, snapshot_of) in
      (
        store_update u proxy before,
        rw (here, lookup-insert u.instance_id id _ m, same),
        store_update-revision u proxy before,
      )
  | inr other ↦ (before, rw (lookup-insert u.instance_id id _ m, other) h, inr (omega arith))
]

-- A packet never takes a player back: where a snapshot is there, one is there afterwards, and its
-- revision is at least the old one, unless the character has changed.
pub handle_packet-NotBack :
    (world : World) (service : Service) (packet id : Bytes) (before : Snapshot)
    → lookup id service.snapshots ≡ some before
    → (after : Snapshot) × (lookup id (handle_packet world service packet).snapshots ≡ some after)
      × NotBack before after
handle_packet-NotBack world service packet id before h = elim (Option-cases (parse_update packet)) [
  | inl e ↦ rw (handle_packet-none world service packet e) (before, h, inr (omega arith))
  | inr (u, e) ↦
      rw (handle_packet-some world service packet u e)
        (insert-NotBack u (proxy_id world u.sender) id before service.snapshots h)
]

-- The snapshot of an id stays as it is, unless the packet parses to a state with that id.
pub handle_packet_others :
    (world : World) (service : Service) (packet id : Bytes)
    → ((u : Update) → parse_update packet ≡ some u → u.instance_id ≢ id)
    → lookup id (handle_packet world service packet).snapshots ≡ lookup id service.snapshots
handle_packet_others world service packet id other = elim (Option-cases (parse_update packet)) [
  | inl e ↦ rw (handle_packet-none world service packet e)
  | inr (u, e) ↦
      rw (handle_packet-some world service packet u e)
        (lookup-insert_ne u.instance_id id _ service.snapshots (other u e))
]
