-- ===== src/Packet.antt =====
-- The text of a packet: fields `key=value` between bars. `ReadField` stands in SyncService.cpp,
-- StrTransport.cpp and UdpTransport.cpp, with one text; so does the layout of a gameplay packet in
-- the two transports, and `SanitizeField`.
pub mod Fields
pub mod Clear
pub mod State
use iedsync_together.Prelude.{
  ℕ, ◌+◌, ◌≡◌, refl, Bool, ◌||◌, [], ◌∷◌, ◌++◌, Option, none, some, ◌==◌, if◌then◌else◌, length,
  ◌>>=◌, map,
}
use iedsync_together.Text.{Bytes, codes, find, find_from, slice, is_empty}
use iedsync_together.Text.Number.{Fmt}
use iedsync_together.FormIdentity.Hex.{hex_encode}
use iedsync_together.FormIdentity.Slots.{SlotState, encode_slots}

-- `kGameplayPrefix`.
abbrev pub gameplay_prefix : Bytes
gameplay_prefix = codes "IEDST|v1|"

unfoldable pub read_field : Bytes → Bytes → Option Bytes
unfolding find
read_field packet key =
    let needle = key ++ codes "=" in
    find packet needle >>= λ found.
    let position = found + length needle in
    some (slice packet position (find_from packet (codes "|") position))

-- A byte that would end the field or the line becomes `_`.
sanitize_byte : ℕ → ℕ
sanitize_byte ch = if ch == b'|' || ch == b'\r' || ch == b'\n' then b'_' else ch

unfoldable pub sanitize_field : Bytes → Bytes
unfolding sanitize_byte
sanitize_field value =
    let clean = map sanitize_byte value in if is_empty clean then codes "Player" else clean

-- The gameplay packet around a payload, from the transport's id and the local player's name.
unfoldable pub build_packet : Bytes → Bytes → Bytes → Bytes
build_packet instance_id player_name payload =
    gameplay_prefix
    ++ (codes "id="
        ++ (instance_id
            ++ (codes "|from="
                ++ (hex_encode player_name
                    ++ (codes "|relay=" ++ (codes "0" ++ (codes "|" ++ payload)))))))

-- The payload that `OnLocalCapture` sends.
unfoldable pub state_payload : ⦃f : Fmt⦄ → ℕ → SlotState → Bytes
state_payload ⦃f⦄ revision slots =
    codes "STATE|rev=" ++ (f.dec revision ++ (codes "|slots=" ++ encode_slots slots))

read_fields :
    (read_field (codes "IEDST|v1|id=7|from=4C|rev=12") (codes "from") ≡ some (codes "4C"))
    × (read_field (codes "IEDST|v1|id=7|from=4C|rev=12") (codes "rev") ≡ some (codes "12"))
    × (read_field (codes "IEDST|v1|id=7") (codes "slots") ≡ none)
unfolding read_field
read_fields = (refl, refl, refl)
