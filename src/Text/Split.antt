-- ===== src/Text/Split.antt =====
-- `Split` of src/LocalIEDState.cpp, on fuel, and the pieces of a text without positions.
pub mod Joined
use iedsync_together.Prelude.{
  ℕ, zero, suc, ◌+◌, ◌≡◌, refl, List, [], ◌∷◌, ◌++◌, Option, none, some, ◌==◌, leb, if◌then◌else◌,
  length, ◌>>=◌,
}
use iedsync_together.Text.{Bytes, codes, find, find_from, substr, slice}

-- The loop from `start` on. `none` is a loop that has not ended.
unfoldable pub split_from : ℕ → Bytes → ℕ → ℕ → Option (List Bytes)
split_from zero value delimiter start = none
split_from (suc fuel) value delimiter start =
    if leb start (length value)
    then elim (find_from value (delimiter ∷ []) start) [
      | none ↦ some (substr value start ∷ [])
      | some end ↦ split_from fuel value delimiter (end + 1) >>= λ pieces.
          some (slice value start (some end) ∷ pieces)
    ]
    else some []

abbrev pub split_fuel : Bytes → ℕ
split_fuel value = suc (length value)

unfoldable pub split : Bytes → ℕ → List Bytes
unfolding split_from
split value delimiter = elim (split_from (split_fuel value) value delimiter 0) [
  | none ↦ []
  | some pieces ↦ pieces
]

abbrev pub onto : ℕ → List Bytes → List Bytes
onto c [] = (c ∷ []) ∷ []
onto c (piece ∷ pieces) = (c ∷ piece) ∷ pieces

-- The text cut at every byte that is the delimiter.
unfoldable pub pieces : ℕ → Bytes → List Bytes
pieces d [] = [] ∷ []
pieces d (c ∷ cs) = if c == d then [] ∷ pieces d cs else onto c (pieces d cs)

-- The pieces with the delimiter between them.
unfoldable pub join : ℕ → List Bytes → Bytes
join d [] = []
join d (piece ∷ []) = piece
join d (piece ∷ next ∷ more) = piece ++ d ∷ join d (next ∷ more)

three : split (codes "a||b") b'|' ≡ codes "a" ∷ [] ∷ codes "b" ∷ []
unfolding split find
three = refl
