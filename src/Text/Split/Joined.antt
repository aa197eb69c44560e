-- ===== src/Text/Split/Joined.antt =====
-- `Split`, the pieces of a text, and texts that were joined.
use mathlib.Core.Option
use native.Mathlib.Nat.{zero-add, suc-add}
use iedsync_together.Prelude.{
  ℕ, zero, suc, ◌+◌, ◌-◌, ◌≤◌, ◌<◌, ◌≡◌, ◌≢◌, refl, ap, ap₂, ◌∙◌, true, List, [], ◌∷◌, ◌++◌, Option,
  none, some, ◌==◌, leb, length, take, drop, arith, Every, Lacks, Bool-cases, Option-cases, inl,
  inr,
}
use iedsync_together.Text.{Bytes, find, starts_with}
use iedsync_together.Text.Split.{split_from, split_fuel, split, onto, pieces, join}

-- What the first delimiter, if there is one, leaves before and behind it.
abbrev cut : ℕ → Bytes → Option ℕ → List Bytes
cut d s none = s ∷ []
cut d s (some n) = take n s ∷ pieces d (drop (n + 1) s)

cut-suc :
    (d c : ℕ) (s : Bytes) (found : Option ℕ)
    → onto c (cut d s found) ≡ cut d (c ∷ s) (Option.map suc found)
cut-suc d c s none = refl
cut-suc d c s (some n) = rw suc-add

pieces-find : (d : ℕ) (s : Bytes) → pieces d s ≡ cut d s (find s (d ∷ []))
unfolding pieces find starts_with
pieces-find d [] = refl
pieces-find d (c ∷ cs) = elim (Bool-cases (c == d)) [
  | inl here ↦ rw here
  | inr other ↦ rw other (ap (onto c) (pieces-find d cs) ∙ cut-suc d c cs (find cs (d ∷ [])))
]

drop-nil : (n : ℕ) → drop {A = ℕ} n [] ≡ []
drop-nil zero = refl
drop-nil (suc n) = refl

drop-drop : (a b : ℕ) (s : Bytes) → drop a (drop b s) ≡ drop (b + a) s
drop-drop a zero s = rw zero-add
drop-drop a (suc b) [] = rw (drop-nil a, suc-add)
drop-drop a (suc b) (c ∷ s) = rw suc-add (drop-drop a b s)

length-drop : (n : ℕ) (s : Bytes) → length (drop n s) ≡ length s - n
length-drop zero s = omega arith
length-drop (suc n) [] = omega arith
length-drop (suc n) (c ∷ s) = omega (arith, length-drop n s)

find_lt : (d : ℕ) (s : Bytes) (n : ℕ) → find s (d ∷ []) ≡ some n → n < length s
unfolding find starts_with
find_lt d [] n e = cc
find_lt d (c ∷ cs) zero e = omega arith
find_lt d (c ∷ cs) (suc n) e = ground (arith, find_lt d cs n)

within : (start : ℕ) (value : Bytes) → start ≤ length value → leb start (length value) ≡ true
within start value h = ground arith

split_from-pieces :
    (fuel : ℕ) (value : Bytes) (d start : ℕ)
    → start ≤ length value
    → length value < start + fuel
    → split_from fuel value d start ≡ some (pieces d (drop start value))
unfolding split_from
split_from-pieces zero value d start h enough = absurd (omega arith)
split_from-pieces (suc fuel) value d start h enough =
    elim (Option-cases (find (drop start value) (d ∷ []))) [
      | inl last ↦ rw (within start value h, pieces-find d (drop start value), last)
      | inr (n, found) ↦
          let small = find_lt d (drop start value) n found in
          let size = length-drop start value in
          rw
            (
              within start value h,
              pieces-find d (drop start value),
              found,
              split_from-pieces fuel value d (start + n + 1) (omega arith) (omega arith),
              drop-drop (n + 1) start value,
            )
            (ap₂ (λ k j. some (take k (drop start value) ∷ pieces d (drop j value))) (omega arith)
              (omega arith))
    ]

split_from_start :
    (value : Bytes) (d : ℕ) → split_from (split_fuel value) value d 0 ≡ some (pieces d value)
split_from_start value d =
    split_from-pieces (split_fuel value) value d 0 (omega arith) (omega arith)

split-pieces : (value : Bytes) (d : ℕ) → split value d ≡ pieces d value
unfolding split
split-pieces value d = rw (split, split_from_start value d)

join-onto : (d c : ℕ) (ps : List Bytes) → join d (onto c ps) ≡ c ∷ join d ps
unfolding join
join-onto d c [] = refl
join-onto d c (p ∷ []) = refl
join-onto d c (p ∷ q ∷ ps) = refl

join-nil : (d : ℕ) (ps : List Bytes) → ps ≢ [] → join d ([] ∷ ps) ≡ d ∷ join d ps
unfolding join
join-nil d [] ne = absurd (ne refl)
join-nil d (p ∷ ps) ne = refl

pieces-ne-nil : (d : ℕ) (s : Bytes) → pieces d s ≢ []
unfolding pieces
pieces-ne-nil d [] e = cc
pieces-ne-nil d (c ∷ cs) e = elim (Bool-cases (c == d)) [
  | inl here ↦ cc (rw here at e)
  | inr other ↦ onto-ne-nil (pieces d cs) (rw other at e)
]
  where
    onto-ne-nil : (ps : List Bytes) → onto c ps ≢ []
    onto-ne-nil [] q = cc
    onto-ne-nil (p ∷ ps) q = cc

join-pieces : (d : ℕ) (s : Bytes) → join d (pieces d s) ≡ s
unfolding pieces
join-pieces d [] = unfold join in refl
join-pieces d (c ∷ cs) = elim (Bool-cases (c == d)) [
  | inl here ↦
      rw (here, join-nil d (pieces d cs) (pieces-ne-nil d cs), join-pieces d cs)
        (ground (arith, here))
  | inr other ↦ rw (other, join-onto d c (pieces d cs), join-pieces d cs)
]

onto-Lacks : (d c : ℕ) (ps : List Bytes) → c ≢ d → Every (Lacks d) ps → Every (Lacks d) (onto c ps)
onto-Lacks d c [] ne h = ((ne, tt), tt)
onto-Lacks d c (p ∷ ps) ne (l, h) = ((ne, l), h)

pieces-Lacks : (d : ℕ) (s : Bytes) → Every (Lacks d) (pieces d s)
unfolding pieces
pieces-Lacks d [] = (tt, tt)
pieces-Lacks d (c ∷ cs) = elim (Bool-cases (c == d)) [
  | inl here ↦ rw here (tt, pieces-Lacks d cs)
  | inr other ↦
      rw other (onto-Lacks d c (pieces d cs) (λ e. ground (arith, other, e)) (pieces-Lacks d cs))
]

-- The loop of `Split` always ends within one round more than the text has bytes. The pieces that it
-- gives have no delimiter, and with the delimiter between them they are the text again.
pub split_ends :
    (value : Bytes) (delimiter : ℕ)
    → (split_from (split_fuel value) value delimiter 0 ≡ some (split value delimiter))
      × (join delimiter (split value delimiter) ≡ value)
      × Every (Lacks delimiter) (split value delimiter)
split_ends value delimiter =
    rw (split-pieces value delimiter)
      (split_from_start value delimiter, join-pieces delimiter value, pieces-Lacks delimiter value)

piece_alone : (d : ℕ) (p : Bytes) → Lacks d p → pieces d p ≡ p ∷ []
unfolding pieces
piece_alone d [] h = refl
piece_alone d (c ∷ p) (ne, h) = rw (piece_alone d p h) (ground (arith, ne))

piece_first : (d : ℕ) (p rest : Bytes) → Lacks d p → pieces d (p ++ d ∷ rest) ≡ p ∷ pieces d rest
unfolding pieces
piece_first d [] rest h = ground arith
piece_first d (c ∷ p) rest (ne, h) = rw (piece_first d p rest h) (ground (arith, ne))

pub split-alone : (d : ℕ) (p : Bytes) → Lacks d p → split p d ≡ p ∷ []
split-alone d p h = split-pieces p d ∙ piece_alone d p h

pub split-first : (d : ℕ) (p rest : Bytes) → Lacks d p → split (p ++ d ∷ rest) d ≡ p ∷ split rest d
split-first d p rest h =
    rw (split-pieces (p ++ d ∷ rest) d, split-pieces rest d) (piece_first d p rest h)

pub split-join :
    (d : ℕ) (p : Bytes) (ps : List Bytes)
    → Every (Lacks d) (p ∷ ps)
    → split (join d (p ∷ ps)) d ≡ p ∷ ps
unfolding join
split-join d p [] (h, hs) = split-alone d p h
split-join d p (q ∷ ps) (h, hs) =
    split-first d p (join d (q ∷ ps)) h ∙ ap (◌∷◌ p) (split-join d q ps hs)
