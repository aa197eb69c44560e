-- ===== src/Udp/Auth.antt =====
-- The signatures: `ComputeHmacSha256`, `RemoveAuthField`, `SignPacket`, `AuthenticatePacket` and
-- `MarkRelayed`.
pub mod Tags
pub mod Signatures
pub mod Relays
use mathlib.Core.Option
use iedsync_together.Prelude.{
  ℕ, ◌+◌, ◌-◌, ◌/◌, ◌%◌, ◌≡◌, refl, Bool, true, false, not, ◌||◌, List, [], ◌∷◌, ◌++◌, Option, none,
  some, leb, ltb, ◌==◌, if◌then◌else◌, length, take, drop, bit_xor, bit_or, ◌>>=◌,
}
use iedsync_together.Text.{Bytes, codes, find, find_from, rfind, slice, is_empty}
use iedsync_together.Packet.{gameplay_prefix}
use iedsync_together.Udp.{Windows}

-- `kAuthField`.
abbrev pub auth_field : Bytes
auth_field = codes "|auth="

-- `hex[n]` in the literal `"0123456789abcdef"`.
unfoldable pub hex_digit : ℕ → ℕ
hex_digit n = if ltb n 10 then b'0' + n else b'a' + (n - 10)

unfoldable pub lower_hex : Bytes → Bytes
lower_hex [] = []
lower_hex (byte ∷ digest) = hex_digit (byte / 16 % 16) ∷ hex_digit (byte % 16) ∷ lower_hex digest

unfoldable pub compute_hmac : ⦃w : Windows⦄ → Bytes → Bytes → Option Bytes
compute_hmac ⦃w⦄ secret content = Option.map lower_hex (w.hmac_sha256 secret content)

abbrev pub tail_from : Bytes → Option ℕ → Bytes
tail_from packet none = []
tail_from packet (some next) = drop next packet

-- The packet without its last `|auth=` field.
unfoldable pub remove_auth_field : Bytes → Bytes
remove_auth_field packet = elim (rfind packet auth_field) [
  | none ↦ packet
  | some position ↦
      take position packet
      ++ tail_from packet (find_from packet (codes "|") (position + length auth_field))
]

-- An empty result is a failure.
unfoldable pub sign_packet : ⦃w : Windows⦄ → Bytes → Bytes → Bytes
sign_packet ⦃w⦄ secret packet =
    let bare = remove_auth_field packet in
    if is_empty secret
    then bare
    else elim (compute_hmac secret bare) [ none ↦ [] | some tag ↦ bare ++ (auth_field ++ tag) ]

-- The value of the `|auth=` field at a position.
unfoldable pub supplied_at : Bytes → ℕ → Bytes
supplied_at packet position =
    let start = position + length auth_field in
    slice packet start (find_from packet (codes "|") start)

-- The loop over the bytes of the two tags; the accumulator is an `unsigned char`.
unfoldable pub difference : ℕ → Bytes → Bytes → ℕ
difference acc (s ∷ supplied) (e ∷ expected) =
    difference (bit_or 8 acc (bit_xor 8 s e)) supplied expected
difference acc _ _ = acc

unfoldable pub same_tag : Bytes → Bytes → Bool
unfolding difference
same_tag supplied expected =
    if not (length supplied == length expected) then false else difference 0 supplied expected == 0

unfoldable pub authenticate_packet : ⦃w : Windows⦄ → Bytes → Bytes → Bool
authenticate_packet ⦃w⦄ secret packet =
    if is_empty secret then true else elim (rfind packet auth_field) [
      | none ↦ false
      | some position ↦ elim (compute_hmac secret (remove_auth_field packet)) [
        | none ↦ false
        | some expected ↦ same_tag (supplied_at packet position) expected
      ]
    ]

abbrev pub local_marker : Bytes
local_marker = codes "|relay=0|"

-- A packet with its marker set. `none` is the exception of `std::string::insert` for a position
-- behind the end.
unfoldable pub set_marker : Bytes → Option Bytes
set_marker packet = elim (find packet local_marker) [
  | some marker ↦
      some (take marker packet ++ (codes "|relay=1|" ++ drop (marker + length local_marker) packet))
  | none ↦
      if ltb (length packet) (length gameplay_prefix)
      then none
      else some (
          take (length gameplay_prefix) packet
          ++ (codes "relay=1|" ++ drop (length gameplay_prefix) packet))
]

unfoldable pub mark_relayed : ⦃w : Windows⦄ → Bytes → Bytes → Option Bytes
mark_relayed ⦃w⦄ secret packet =
    Option.map (sign_packet secret) (set_marker (remove_auth_field packet))
