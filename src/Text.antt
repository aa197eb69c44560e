-- ===== src/Text.antt =====
-- Byte strings, and the operations of `std::string` and `std::string_view` that the source uses.
-- A position is a number, and `npos` is `none`.
pub mod Search
pub mod Number
pub mod Plain
pub mod Split
use Prim.Native.Char.{code}
use Prim.Native.String.{String}
use mathlib.Core.Option
use iedsync_together.Prelude.{
  ℕ, zero, suc, ◌+◌, ◌-◌, ◌≡◌, refl, Bool, true, false, ◌&&◌, List, [], ◌∷◌, ◌++◌, Option, none,
  some, ◌==◌, if◌then◌else◌, length, take, drop,
}

abbrev pub Bytes : Type 0
Bytes = List ℕ

-- The bytes of an ASCII literal.
abbrev pub codes : String → Bytes
codes String.[] = []
codes (String.◌∷◌ c s) = code c ∷ codes s

-- `operator==`.
unfoldable pub equal : Bytes → Bytes → Bool
equal [] [] = true
equal (x ∷ xs) (y ∷ ys) = x == y && equal xs ys
equal _ _ = false

abbrev pub is_empty : Bytes → Bool
is_empty [] = true
is_empty (c ∷ cs) = false

-- `s.starts_with(prefix)`.
unfoldable pub starts_with : Bytes → Bytes → Bool
starts_with s [] = true
starts_with [] (p ∷ ps) = false
starts_with (c ∷ cs) (p ∷ ps) = c == p && starts_with cs ps

-- `s.find(needle)`: the first position at which `needle` stands.
unfoldable pub find : Bytes → Bytes → Option ℕ
unfolding starts_with
find [] needle = if starts_with [] needle then some 0 else none
find (c ∷ cs) needle =
    if starts_with (c ∷ cs) needle then some 0 else Option.map suc (find cs needle)

-- `s.find(needle, position)`, for a position within `s`.
abbrev pub find_from : Bytes → Bytes → ℕ → Option ℕ
find_from s needle position = Option.map (λ n. position + n) (find (drop position s) needle)

later : Bytes → Bytes → Option ℕ → Option ℕ
later s needle (some n) = some (suc n)
later s needle none = if starts_with s needle then some 0 else none

-- `s.rfind(needle)`: the last position at which `needle` stands.
unfoldable pub rfind : Bytes → Bytes → Option ℕ
unfolding starts_with later
rfind [] needle = later [] needle none
rfind (c ∷ cs) needle = later (c ∷ cs) needle (rfind cs needle)

-- `s.substr(position)` and `s.substr(position, count)`, for a position within `s`.
abbrev pub substr : Bytes → ℕ → Bytes
substr s position = drop position s

abbrev pub substr_count : Bytes → ℕ → ℕ → Bytes
substr_count s position count = take count (drop position s)

-- The part of `s` from `position` up to `end`, or up to the end of `s` if `end` is `npos`.
abbrev pub slice : Bytes → ℕ → Option ℕ → Bytes
slice s position none = substr s position
slice s position (some end) = substr_count s position (end - position)

find_second : find (codes "a=1|id=7|id=8") (codes "id=") ≡ some 4
unfolding find
find_second = refl

rfind_last : rfind (codes "a=1|id=7|id=8") (codes "id=") ≡ some 9
unfolding rfind
rfind_last = refl
