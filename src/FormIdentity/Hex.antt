-- ===== src/FormIdentity/Hex.antt =====
-- `HexValue`, `HexEncode` and `HexDecode` of src/FormIdentity.cpp. The `-1` of `HexValue` is `none`.
pub mod RoundTrip
use Prim.Native.Nat.{bit_or}
use iedsync_together.Prelude.{
  ℕ, zero, suc, ◌+◌, ◌-◌, ◌*◌, ◌/◌, ◌%◌, ◌≡◌, refl, Bool, ◌&&◌, [], ◌∷◌, ◌++◌, Option, none, some,
  leb, ◌==◌, if◌then◌else◌, length, ◌>>=◌,
}
use iedsync_together.Text.{Bytes, codes}

unfoldable pub hex_value : ℕ → Option ℕ
hex_value ch =
    if leb b'0' ch && leb ch b'9'
    then some (ch - b'0')
    else if leb b'a' ch && leb ch b'f'
    then some (10 + ch - b'a')
    else if leb b'A' ch && leb ch b'F'
    then some (10 + ch - b'A')
    else none

abbrev digits : Bytes
digits = codes "0123456789ABCDEF"

-- `digits[i]`, for `i` below 16.
abbrev pub digit_at : Bytes → ℕ → ℕ
digit_at [] i = 0
digit_at (d ∷ ds) zero = d
digit_at (d ∷ ds) (suc i) = digit_at ds i

-- The shift and mask of the high and of the low half of a byte.
abbrev high_half : ℕ → ℕ
high_half ch = ch / 16 % 16

abbrev low_half : ℕ → ℕ
low_half ch = ch % 16

unfoldable pub hex_encode : Bytes → Bytes
hex_encode [] = []
hex_encode (ch ∷ value) =
    digit_at digits (high_half ch) ∷ digit_at digits (low_half ch) ∷ hex_encode value

-- `static_cast<char>((high << 4) | low)`.
unfoldable pub join_halves : ℕ → ℕ → ℕ
join_halves high low = bit_or (high * 16) low % 256

-- The loop over `i`, two bytes a round.
unfoldable pub decode_pairs : Bytes → Option Bytes
unfolding hex_value join_halves
decode_pairs [] = some []
decode_pairs (a ∷ []) = none
decode_pairs (a ∷ b ∷ rest) = hex_value a >>= λ high.
    hex_value b >>= λ low. decode_pairs rest >>= λ decoded. some (join_halves high low ∷ decoded)

unfoldable pub hex_decode : Bytes → Option Bytes
unfolding decode_pairs
hex_decode value = if length value % 2 == 0 then decode_pairs value else none

encode_lydia : hex_encode (codes "Lydia") ≡ codes "4C79646961"
unfolding hex_encode
encode_lydia = refl

decode_lydia : hex_decode (codes "4c79646961") ≡ some (codes "Lydia")
unfolding hex_decode
decode_lydia = refl
