-- ===== src/Text/Number.antt =====
-- `std::stoul` and `std::stoull`, with the sizes that the types have on Windows, and the parts of
-- `fmt::format` that print numbers, which is a library: a record of its operations and what its
-- documentation says of them.
pub mod Parse
use iedsync_together.Prelude.{
  ℕ, suc, ◌+◌, ◌-◌, ◌*◌, ◌%◌, ◌^◌, ◌≡◌, ◌≢◌, refl, Bool, true, false, ◌&&◌, ◌||◌, [], ◌∷◌, Option,
  none, some, arith, ltb, leb, ◌==◌, if◌then◌else◌, Every, is_some,
}
use iedsync_together.Text.{Bytes, codes}

-- `ULONG_MAX` on Windows, which is also the largest `std::uint32_t`.
abbrev pub u32_max : ℕ
u32_max = 2 ^ 32 - 1

abbrev pub u64_max : ℕ
u64_max = 2 ^ 64 - 1

-- `std::isspace` in the "C" locale.
unfoldable pub is_space : ℕ → Bool
is_space c = c == b' ' || (leb 9 c && leb c 13)

-- The value of a digit, in any base up to 36.
digit : ℕ → Option ℕ
digit c =
    if leb b'0' c && leb c b'9'
    then some (c - b'0')
    else if leb b'a' c && leb c b'z'
    then some (c - b'a' + 10)
    else if leb b'A' c && leb c b'Z'
    then some (c - b'A' + 10)
    else none

unfoldable pub digit_in : ℕ → ℕ → Option ℕ
unfolding digit
digit_in base c = elim (digit c) [ none ↦ none | some d ↦ if ltb d base then some d else none ]

skip_spaces : Bytes → Bytes
skip_spaces [] = []
skip_spaces (c ∷ cs) = if is_space c then skip_spaces cs else c ∷ cs

-- An optional sign, and whether it is a minus.
split_sign : Bytes → Bool × Bytes
split_sign [] = (false, [])
split_sign (c ∷ cs) =
    if c == b'-' then (true, cs) else if c == b'+' then (false, cs) else (false, c ∷ cs)

-- In base 16 the digits may stand behind `0x`.
skip_prefix : ℕ → Bytes → Bytes
skip_prefix base (z ∷ x ∷ c ∷ cs) =
    if base == 16 && z == b'0' && (x == b'x' || x == b'X') && is_some (digit_in 16 c)
    then c ∷ cs
    else z ∷ x ∷ c ∷ cs
skip_prefix base s = s

-- The number that the leading digits spell behind `n`.
read_digits : ℕ → ℕ → Bytes → ℕ
read_digits base n [] = n
read_digits base n (c ∷ cs) = elim (digit_in base c) [
  | none ↦ n
  | some d ↦ read_digits base (n * base + d) cs
]

-- The value as the unsigned type takes it: too large a number is an exception, and a minus sign
-- negates modulo the type's size.
in_range : ℕ → Bool → ℕ → Option ℕ
in_range max negative n =
    if ltb max n then none else some (if negative then (suc max - n) % suc max else n)

from_digits : ℕ → ℕ → Bool → Bytes → Option ℕ
unfolding read_digits in_range
from_digits max base negative [] = none
from_digits max base negative (c ∷ cs) =
    if is_some (digit_in base c) then in_range max negative (read_digits base 0 (c ∷ cs)) else none

-- `std::stoul(text, nullptr, base)` into an unsigned type with the largest value `max`. `none` is
-- an exception: no digits, or out of range. What follows the digits is ignored.
unfoldable pub sto : ℕ → ℕ → Bytes → Option ℕ
unfolding skip_spaces split_sign skip_prefix from_digits is_space
sto max base text =
    let (negative, rest) = split_sign (skip_spaces text) in
    from_digits max base negative (skip_prefix base rest)

abbrev pub stoul : ℕ → Bytes → Option ℕ
stoul = sto u32_max

abbrev pub stoull : ℕ → Bytes → Option ℕ
stoull = sto u64_max

-- The number that a text of digits spells behind `n`.
abbrev pub value : ℕ → ℕ → Bytes → Option ℕ
value base n [] = some n
value base n (c ∷ cs) = elim (digit_in base c) [
  | none ↦ none
  | some d ↦ value base (n * base + d) cs
]

abbrev pub is_upper_hex : ℕ → Bool
is_upper_hex c = (leb b'0' c && leb c b'9') || (leb b'A' c && leb c b'F')

abbrev pub is_digit : ℕ → Bool
is_digit c = leb b'0' c && leb c b'9'

-- `fmt::format("{}", n)` and `fmt::format("{:X}", n)`.
pub record Fmt : Type 0 where
  pub dec : ℕ → Bytes
  pub hex : ℕ → Bytes
  pub dec_ne_nil : (n : ℕ) → dec n ≢ []
  pub hex_ne_nil : (n : ℕ) → hex n ≢ []
  pub dec_digits : (n : ℕ) → Every (λ c. is_digit c ≡ true) (dec n)
  pub hex_digits : (n : ℕ) → Every (λ c. is_upper_hex c ≡ true) (hex n)
  pub dec_value : (n : ℕ) → value 10 0 (dec n) ≡ some n
  pub hex_value : (n : ℕ) → value 16 0 (hex n) ≡ some n

tests :
    (stoul 10 (codes " +42 apples") ≡ some 42)
    × (stoul 16 (codes "0x1fz") ≡ some 31)
    × (stoul 10 (codes "4294967296") ≡ none)
    × (stoul 10 (codes "-1") ≡ some u32_max)
    × (stoul 10 (codes "x") ≡ none)
unfolding sto digit_in
tests = (refl, refl, refl, refl, refl)
