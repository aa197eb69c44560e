-- ===== src/ServerDiscovery/Stored.antt =====
-- The layout in which the browser stores a value, and its reading in src/StrServerDiscovery.cpp.
use iedsync_together.Prelude.{
  ℕ, suc, ap, append_assoc, ◌+◌, ◌/◌, ◌%◌, ◌≤◌, ◌≡◌, ◌∙◌, refl, true, false, [], ◌∷◌, ◌++◌, some,
  arith, ltb, ◌==◌, if◌then◌else◌, length, Bool-cases, inl, inr, take_front, drop_front,
  length-append,
}
use iedsync_together.Text.{Bytes}
use iedsync_together.ServerDiscovery.Values.{
  is_reasonable_local_storage_value, read_varint_from, read_varint, marked_value, value_at,
  try_offsets, try_read_chromium_local_storage_value,
}

-- A number below 2^14 in groups of seven bits, the low one first.
abbrev pub varint : ℕ → Bytes
varint n = if ltb n 128 then n ∷ [] else (n % 128 + 128) ∷ (n / 128) ∷ []

-- The length, the mark of the encoding and the bytes.
abbrev pub stored : Bytes → Bytes
stored value = varint (length value) ++ 1 ∷ value

one_byte : (n : ℕ) (rest : Bytes) → ltb n 128 ≡ true → read_varint (n ∷ rest) ≡ some (n, 1)
unfolding read_varint read_varint_from
one_byte n rest h = rw h (ap (λ m. some (m, 1)) (ground (arith, h)))

two_bytes :
    (n : ℕ) (rest : Bytes)
    → ltb n 128 ≡ false
    → n ≤ 2048
    → read_varint ((n % 128 + 128) ∷ (n / 128) ∷ rest) ≡ some (n, 2)
unfolding read_varint read_varint_from
two_bytes n rest h le = rw (first, second) (ap (λ m. some (m, 2)) (omega arith))
  where
    first : ltb (n % 128 + 128) 128 ≡ false
    first = ground arith

    second : ltb (n / 128) 128 ≡ true
    second = ground (arith, le)

read_varint-varint :
    (n : ℕ) (rest : Bytes) → n ≤ 2048 → read_varint (varint n ++ rest) ≡ some (n, length (varint n))
read_varint-varint n rest h = elim (Bool-cases (ltb n 128)) [
  | inl one ↦ rw one (one_byte n rest one)
  | inr two ↦ rw two (two_bytes n rest two h)
]

value_fits :
    (value : Bytes)
    → is_reasonable_local_storage_value value ≡ true
    → ((length value == 0) ≡ false) × (length value ≤ 2048)
unfolding is_reasonable_local_storage_value
value_fits [] h = cc
value_fits (c ∷ cs) h = (ground arith, ground (arith, h))

marked_value-value :
    (value rest : Bytes)
    → is_reasonable_local_storage_value value ≡ true
    → marked_value (length value) (1 ∷ value ++ rest) ≡ some value
unfolding marked_value
marked_value-value value rest h =
    let (ne, le) = value_fits value h in rw (ne, fits le, behind, take_front value rest, h) refl
  where
    fits : length value ≤ 2048 → ltb 2048 (length value) ≡ false
    fits le = ground (arith, le)

    behind : ltb (length (value ++ rest)) (length value) ≡ false
    behind = ground (arith, length-append value rest)

value_at-stored :
    (value rest : Bytes)
    → is_reasonable_local_storage_value value ≡ true
    → value_at (stored value ++ rest) ≡ some value
unfolding value_at
value_at-stored value rest h =
    let (_, le) = value_fits value h in
    ap value_at (append_assoc (varint (length value)) (1 ∷ value) rest)
    ∙ rw
        (
          value_at,
          read_varint-varint (length value) (1 ∷ value ++ rest) le,
          drop_front (varint (length value)) (1 ∷ value ++ rest),
        )
        (marked_value-value value rest h)

try_offsets-first :
    (rounds : ℕ) (bytes : Bytes) {value : Bytes}
    → value_at bytes ≡ some value
    → try_offsets (suc rounds) bytes ≡ some value
unfolding try_offsets value_at read_varint read_varint_from
try_offsets-first rounds [] h = cc
try_offsets-first rounds (c ∷ cs) h = rw (try_offsets, h) refl

-- A printable value of 1 to 2048 bytes that is stored at once behind a key, its length in the groups
-- of seven bits of a variable-length integer and with the mark of its encoding, is what
-- `TryReadChromiumLocalStorageValue` reads, whatever comes behind it.
pub try_read_chromium_local_storage_value-stored :
    (value rest : Bytes)
    → is_reasonable_local_storage_value value ≡ true
    → try_read_chromium_local_storage_value (stored value ++ rest) ≡ some value
unfolding try_read_chromium_local_storage_value
try_read_chromium_local_storage_value-stored value rest h =
    try_offsets-first 7 (stored value ++ rest) (value_at-stored value rest h)
