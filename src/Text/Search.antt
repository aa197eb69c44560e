-- ===== src/Text/Search.antt =====
-- How the comparisons and searches meet the pieces of a text that was put together.
use mathlib.Core.Option
use native.Mathlib.Nat.{sub-zero}
use iedsync_together.Prelude.{
  is_some, take_front, ap, ℕ, ◌+◌, ◌≡◌, ◌↔◌, refl, true, [], ◌∷◌, ◌++◌, none, some, arith, length,
  Lacks,
}
use iedsync_together.Text.{slice, Bytes, equal, starts_with, find}

pub equal_iff : (left right : Bytes) → (equal left right ≡ true) ↔ (left ≡ right)
unfolding equal
equal_iff [] [] = ground arith
equal_iff [] (r ∷ right) = ground arith
equal_iff (l ∷ left) [] = ground arith
equal_iff (l ∷ left) (r ∷ right) = ground (arith, equal_iff left right)

pub equal_self : (a : Bytes) → equal a a ≡ true
equal_self a = (equal_iff a a).1 refl

pub starts_with-append : (p s : Bytes) → starts_with (p ++ s) p ≡ true
unfolding starts_with
starts_with-append [] [] = refl
starts_with-append [] (c ∷ s) = refl
starts_with-append (c ∷ p) s = ground (arith, starts_with-append p s)

-- What stands before the first byte of the needle is passed over.
pub find_skip :
    (k : ℕ) (ks pre rest : Bytes)
    → Lacks k pre
    → find (pre ++ rest) (k ∷ ks) ≡ Option.map (λ n. length pre + n) (find rest (k ∷ ks))
unfolding find starts_with
find_skip k ks [] rest h = ground arith
find_skip k ks (c ∷ pre) rest (ne, h) = ground (arith, find_skip k ks pre rest h)

-- The needle itself is found at once.
pub find_here : (k : ℕ) (ks rest : Bytes) → find ((k ∷ ks) ++ rest) (k ∷ ks) ≡ some 0
unfolding find
find_here k ks rest = rw (starts_with-append (k ∷ ks) rest)

pub find-none : (k : ℕ) (ks s : Bytes) → Lacks k s → find s (k ∷ ks) ≡ none
unfolding find starts_with
find-none k ks [] h = refl
find-none k ks (c ∷ s) (ne, h) = ground (arith, find-none k ks s h)

-- The first of the bytes `k`, behind a text that has none.
pub find_first :
    (k : ℕ) (pre rest : Bytes) → Lacks k pre → find (pre ++ k ∷ rest) (k ∷ []) ≡ some (length pre)
find_first k pre rest h =
    rw (find_skip k [] pre (k ∷ rest) h, find_here k [] rest) (ap some (omega arith))

pub slice_front : (xs ys : Bytes) → slice (xs ++ ys) 0 (some (length xs)) ≡ xs
slice_front xs ys = rw sub-zero (take_front xs ys)

-- A text that holds the needle still does behind another text.
pub contains_behind :
    (needle pre rest : Bytes)
    → is_some (find rest needle) ≡ true
    → is_some (find (pre ++ rest) needle) ≡ true
unfolding find
contains_behind needle [] rest h = h
contains_behind needle (c ∷ pre) rest h = ground (arith, contains_behind needle pre rest h)
