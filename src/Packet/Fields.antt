-- ===== src/Packet/Fields.antt =====
-- `ReadField` without positions: the text behind the first `key=`, up to the next bar.
use mathlib.Core.Option
use native.Mathlib.Nat.{suc-add, zero-add}
use iedsync_together.Prelude.{
  ℕ, suc, ◌+◌, ◌≡◌, refl, ap, ◌∙◌, Bool, true, false, not, ◌&&◌, ◌||◌, [], ◌∷◌, ◌++◌, Option, none,
  some, ◌==◌, leb, if◌then◌else◌, length, take, drop, drop_front, ◌>>=◌, arith, Lacks, Bool-cases,
  inl, inr,
}
use iedsync_together.Text.{Bytes, codes, starts_with, find, find_from, slice}
use iedsync_together.Text.Search.{starts_with-append, find_first, find-none, slice_front}
use iedsync_together.Text.Plain.{IsPlain}
use iedsync_together.Packet.{read_field}

-- What stands behind the first `needle`.
unfoldable pub after : Bytes → Bytes → Option Bytes
after needle [] = if starts_with [] needle then some [] else none
after needle (c ∷ cs) =
    if starts_with (c ∷ cs) needle then some (drop (length needle) (c ∷ cs)) else after needle cs

-- The text up to the next bar.
unfoldable pub until_bar : Bytes → Bytes
until_bar s = slice s 0 (find s (codes "|"))

shift_found :
    (needle cs : Bytes) (c : ℕ) (found : Option ℕ)
    → (Option.map suc found >>= λ n. some (drop (n + length needle) (c ∷ cs)))
      ≡ (found >>= λ n. some (drop (n + length needle) cs))
shift_found needle cs c none = refl
shift_found needle cs c (some n) = rw suc-add

find-after :
    (needle s : Bytes) → (find s needle >>= λ n. some (drop (n + length needle) s)) ≡ after needle s
unfolding find after
find-after [] [] = unfold starts_with in refl
find-after (k ∷ ks) [] = unfold starts_with in refl
find-after needle (c ∷ cs) = elim (Bool-cases (starts_with (c ∷ cs) needle)) [
  | inl here ↦ rw (here, zero-add (length needle))
  | inr later ↦ rw later (shift_found needle cs c (find cs needle) ∙ find-after needle cs)
]

slice-drop :
    (s : Bytes) (p : ℕ) (end : Option ℕ)
    → slice s p (Option.map (λ n. p + n) end) ≡ slice (drop p s) 0 end
slice-drop s p none = refl
slice-drop s p (some n) = ap (λ k. take k (drop p s)) (omega arith)

pub read_field-after :
    (packet key : Bytes)
    → read_field packet key ≡ (after (key ++ codes "=") packet >>= λ rest. some (until_bar rest))
unfolding read_field until_bar
read_field-after packet key =
    rw (← find-after (key ++ codes "=") packet) (at_found (find packet (key ++ codes "=")))
  where
    at_found :
        (found : Option ℕ)
        → (found >>= λ n.
            let position = n + length (key ++ codes "=") in
            some (slice packet position (find_from packet (codes "|") position)))
          ≡ ((found >>= λ n. some (drop (n + length (key ++ codes "=")) packet)) >>= λ rest.
              some (slice rest 0 (find rest (codes "|"))))
    at_found none = refl
    at_found (some n) = ap some (slice-drop packet (n + length (key ++ codes "=")) _)

pub until_bar-value : (v rest : Bytes) → Lacks b'|' v → until_bar (v ++ b'|' ∷ rest) ≡ v
unfolding until_bar
until_bar-value v rest h = rw (find_first b'|' v rest h) (slice_front v (b'|' ∷ rest))

pub until_bar_end : (v : Bytes) → Lacks b'|' v → until_bar v ≡ v
unfolding until_bar
until_bar_end v h = rw (find-none b'|' [] v h)

-- The two texts differ at a position that both have.
abbrev pub differs : Bytes → Bytes → Bool
differs [] b = false
differs (x ∷ a) [] = false
differs (x ∷ a) (y ∷ b) = not (x == y) || differs a b

-- No occurrence of the needle begins within the text, whatever follows it.
abbrev pub clear : Bytes → Bytes → Bool
clear needle [] = true
clear needle (c ∷ cs) = differs (c ∷ cs) needle && clear needle cs

pub differs-starts_with :
    (a b rest : Bytes) → differs a b ≡ true → starts_with (a ++ rest) b ≡ false
unfolding starts_with
differs-starts_with [] b rest h = cc
differs-starts_with (x ∷ a) [] rest h = cc
differs-starts_with (x ∷ a) (y ∷ b) rest h = ground (arith, differs-starts_with a b rest)

pub after-clear :
    (needle pre rest : Bytes)
    → clear needle pre ≡ true
    → after needle (pre ++ rest) ≡ after needle rest
unfolding after
after-clear needle [] rest h = refl
after-clear needle (c ∷ cs) rest h =
    ground (arith, differs-starts_with (c ∷ cs) needle rest, after-clear needle cs rest)

pub after_here : (k : ℕ) (ks rest : Bytes) → after (k ∷ ks) ((k ∷ ks) ++ rest) ≡ some rest
unfolding after
after_here k ks rest = rw (starts_with-append (k ∷ ks) rest, drop_front (k ∷ ks) rest)

pub clear_plain :
    (k : ℕ) (ks s : Bytes) → (leb b'a' k && leb k b'z') ≡ true → IsPlain s → clear (k ∷ ks) s ≡ true
clear_plain k ks [] h p = refl
clear_plain k ks (c ∷ cs) h (q, p) = ground (arith, clear_plain k ks cs h p)

pub read_field-eq-some :
    (packet key : Bytes) {rest value : Bytes}
    → after (key ++ codes "=") packet ≡ some rest
    → until_bar rest ≡ value
    → read_field packet key ≡ some value
read_field-eq-some packet key found ends = rw (read_field-after packet key, found, ends)
