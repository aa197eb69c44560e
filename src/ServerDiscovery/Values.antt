-- ===== src/ServerDiscovery/Values.antt =====
-- The values of the browser's local storage in src/StrServerDiscovery.cpp: `ReadVarint`,
-- `TryReadChromiumLocalStorageValue`, `ReadLocalStorageValues` and `ReadLatestLocalStorageValue`. The
-- reads at an offset are reads of the bytes from there on.
use iedsync_together.Prelude.{
  ℕ, zero, suc, ◌+◌, ◌-◌, ◌*◌, ◌%◌, ◌^◌, Bool, true, false, not, ◌&&◌, ◌||◌, List, [], ◌∷◌, ◌++◌,
  Option, none, some, leb, ltb, ◌==◌, if◌then◌else◌, length, is_some, take, drop,
}
use iedsync_together.Text.{Bytes, codes, is_empty, starts_with}
use iedsync_together.ProxyResolver.{equals_insensitive}

abbrev pub is_printable : ℕ → Bool
is_printable c = leb 0x20 c && ltb c 0x7F

unfoldable pub all_printable : Bytes → Bool
all_printable [] = true
all_printable (c ∷ cs) = is_printable c && all_printable cs

unfoldable pub is_reasonable_local_storage_value : Bytes → Bool
unfolding all_printable
is_reasonable_local_storage_value value =
    not (is_empty value || ltb 2048 (length value)) && all_printable value

-- The rounds from the byte `i` on. The bits of a byte stand above those of `result`, so that the sum
-- is their `|`, and the five bytes have 35 bits.
unfoldable pub read_varint_from : ℕ → Bytes → ℕ → ℕ → ℕ → Option (ℕ × ℕ)
read_varint_from zero bytes i result shift = none
read_varint_from (suc rounds) [] i result shift = none
read_varint_from (suc rounds) (byte ∷ bytes) i result shift =
    let next = result + byte % 128 * 2 ^ shift in
    let more = read_varint_from rounds bytes (i + 1) next (shift + 7) in
    if ltb byte 128 then some (next, i + 1) else more

-- The number and how many bytes it has.
unfoldable pub read_varint : Bytes → Option (ℕ × ℕ)
unfolding read_varint_from
read_varint bytes = read_varint_from 5 bytes 0 0 0

-- The value behind a length and the mark of its encoding.
unfoldable pub marked_value : ℕ → Bytes → Option Bytes
unfolding is_reasonable_local_storage_value
marked_value count [] = none
marked_value count (mark ∷ behind) =
    if not (mark == 1) || count == 0 || ltb 2048 count || ltb (length behind) count
    then none
    else let value = take count behind in
      if is_reasonable_local_storage_value value then some value else none

-- One round of the loop.
unfoldable pub value_at : Bytes → Option Bytes
unfolding read_varint marked_value
value_at bytes = elim (read_varint bytes) [
  | none ↦ none
  | some (count, size) ↦ marked_value count (drop size bytes)
]

unfoldable pub try_offsets : ℕ → Bytes → Option Bytes
unfolding value_at
try_offsets zero bytes = none
try_offsets (suc rounds) [] = none
try_offsets (suc rounds) (c ∷ cs) =
    let rest = try_offsets rounds cs in
    elim (value_at (c ∷ cs)) [ some value ↦ some value | none ↦ rest ]

unfoldable pub try_read_chromium_local_storage_value : Bytes → Option Bytes
unfolding try_offsets
try_read_chromium_local_storage_value bytes = try_offsets 8 bytes

-- `is_regular_file` and `last_write_time`, `none` on an error, and the bytes, `none` if the file cannot
-- be opened.
pub record StorageFile : Type 0 where
  pub is_regular_file : Option Bool
  pub extension : Bytes
  pub modified : Option ℕ
  pub content : Option Bytes

pub record StoredValue : Type 0 where
  pub modified : ℕ
  pub order : ℕ
  pub value : Option Bytes

-- The occurrences of a key that is not empty, each searched behind the one before: `skip` bytes of it
-- are left.
unfoldable pub values_in : Bytes → ℕ → Bytes → List (Option Bytes)
unfolding try_read_chromium_local_storage_value
values_in key skip [] = []
values_in key zero (c ∷ cs) = elim (starts_with (c ∷ cs) key) [
  | true ↦
      try_read_chromium_local_storage_value (drop (length key) (c ∷ cs))
      ∷ values_in key (length key - 1) cs
  | false ↦ values_in key zero cs
]
values_in key (suc skip) (c ∷ cs) = values_in key skip cs

abbrev pub or_zero : Option ℕ → ℕ
or_zero none = 0
or_zero (some n) = n

unfoldable pub number_values : ℕ → ℕ → List (Option Bytes) → List StoredValue
number_values modified order [] = []
number_values modified order (value ∷ values) =
    record { modified = modified; order = order; value = value }
    ∷ number_values modified (order + 1) values

abbrev pub is_regular : Option Bool → Bool
is_regular none = false
is_regular (some answer) = answer

unfoldable pub values_of : Bytes → ℕ → StorageFile → List StoredValue
unfolding values_in number_values
values_of key order file =
    if not (is_regular file.is_regular_file)
      || not (equals_insensitive file.extension (codes ".log"))
        && not (equals_insensitive file.extension (codes ".ldb"))
    then []
    else elim file.content [
      | none ↦ []
      | some bytes ↦ number_values (or_zero file.modified) order (values_in key zero bytes)
    ]

abbrev pub is_none_found : List StoredValue → Bool
is_none_found [] = true
is_none_found (value ∷ values) = false

-- Whether `ec` holds an error behind the file: that of `is_regular_file`, or of the last call of
-- `last_write_time`, of which there is one for each value.
unfoldable pub sets_error : StorageFile → List StoredValue → Bool
sets_error file found =
    not (is_some file.is_regular_file) || (not (is_none_found found) && not (is_some file.modified))

-- The values of the files, before they are sorted. An error stays in `ec`, and while it is there every
-- further file is skipped.
unfoldable pub read_local_storage_values : Bytes → ℕ → List StorageFile → List StoredValue
unfolding values_of sets_error
read_local_storage_values key order [] = []
read_local_storage_values key order (file ∷ files) =
    let found = values_of key order file in
    let rest = read_local_storage_values key (order + length found) files in
    if sets_error file found then found else found ++ rest

abbrev pub is_earlier : StoredValue → StoredValue → Bool
is_earlier left right =
    if not (left.modified == right.modified)
    then ltb left.modified right.modified
    else ltb left.order right.order

-- The last of the values once they are sorted, which is the latest: no two have one order.
unfoldable pub latest_of : StoredValue → List StoredValue → StoredValue
latest_of best [] = best
latest_of best (value ∷ values) = latest_of (if is_earlier best value then value else best) values

unfoldable pub last_sorted : List StoredValue → Option Bytes
unfolding latest_of
last_sorted [] = none
last_sorted (value ∷ values) = (latest_of value values).value

unfoldable pub read_latest_local_storage_value : Option (List StorageFile) → Bytes → Option Bytes
unfolding read_local_storage_values last_sorted
read_latest_local_storage_value none key = none
read_latest_local_storage_value (some files) key =
    last_sorted (read_local_storage_values key 0 files)
