-- ===== src/Text/Number/Parse.antt =====
-- `stoul` and `stoull` on the numbers that `fmt` prints.
use iedsync_together.Prelude.{
  ℕ, ◌+◌, ◌*◌, ◌≤◌, ◌≡◌, ◌≢◌, inl, inr, refl, true, false, [], ◌∷◌, some, arith, Every, Every-map,
  Option-cases,
}
use iedsync_together.Text.{Bytes}
use iedsync_together.Text.Number.{
  digit_in, is_space, skip_spaces, split_sign, skip_prefix, read_digits, from_digits, sto, value,
  is_upper_hex, is_digit, u32_max, Fmt,
}

value-read_digits :
    (base n : ℕ) (s : Bytes) {r : ℕ} → value base n s ≡ some r → read_digits base n s ≡ r
unfolding read_digits
value-read_digits base n [] h = ground arith
value-read_digits base n (c ∷ cs) {r} h = elim (Option-cases (digit_in base c)) [
  | inl e ↦ ground arith
  | inr (d, e) ↦ rw (e, read_digits) (value-read_digits base (n * base + d) cs (ground arith))
]

IsHexText : Bytes → Type 0
unfolding is_space
IsHexText = Every (λ c. is_upper_hex c ≡ true)

skip_spaces-hex : (c : ℕ) (cs : Bytes) → is_upper_hex c ≡ true → skip_spaces (c ∷ cs) ≡ c ∷ cs
unfolding skip_spaces is_space
skip_spaces-hex c cs h = ground arith

split_sign-hex :
    (c : ℕ) (cs : Bytes) → is_upper_hex c ≡ true → split_sign (c ∷ cs) ≡ (false, c ∷ cs)
unfolding split_sign
split_sign-hex c cs h = ground arith

skip_prefix-hex : (base : ℕ) (s : Bytes) → IsHexText s → skip_prefix base s ≡ s
unfolding skip_prefix IsHexText
skip_prefix-hex base (z ∷ x ∷ c ∷ cs) h = ground arith
skip_prefix-hex base _ h = refl

from_digits-value :
    (max base : ℕ) (s : Bytes) {n : ℕ}
    → s ≢ []
    → value base 0 s ≡ some n
    → n ≤ max
    → from_digits max base false s ≡ some n
unfolding from_digits
from_digits-value max base [] ne h le = absurd (ne refl)
from_digits-value max base (c ∷ cs) {n} ne h le = elim (Option-cases (digit_in base c)) [
  | inl e ↦ ground arith
  | inr (d, e) ↦ rw (e, value-read_digits base 0 (c ∷ cs) h) (ground arith)
]

-- A text of upper-case hexadecimal digits, which may all be decimal, has its plain value.
pub sto-value :
    (max base : ℕ) (s : Bytes) {n : ℕ}
    → s ≢ []
    → Every (λ c. is_upper_hex c ≡ true) s
    → value base 0 s ≡ some n
    → n ≤ max
    → sto max base s ≡ some n
unfolding sto IsHexText
sto-value max base [] ne all h le = absurd (ne refl)
sto-value max base (c ∷ cs) ne all h le =
    rw (skip_spaces-hex c cs all.0, split_sign-hex c cs all.0, skip_prefix-hex base (c ∷ cs) all)
      (from_digits-value max base (c ∷ cs) ne h le)

digit-upper_hex : (c : ℕ) → is_digit c ≡ true → is_upper_hex c ≡ true
digit-upper_hex c h = ground arith

module _ ⦃f : Fmt⦄ where
  pub stoul-hex : (n : ℕ) → n ≤ u32_max → sto u32_max 16 (f.hex n) ≡ some n
  stoul-hex n = sto-value u32_max 16 (f.hex n) (f.hex_ne_nil n) (f.hex_digits n) (f.hex_value n)

  pub sto-dec : (max n : ℕ) → n ≤ max → sto max 10 (f.dec n) ≡ some n
  sto-dec max n =
      sto-value max 10 (f.dec n) (f.dec_ne_nil n)
        (Every-map _ _ digit-upper_hex (f.dec n) (f.dec_digits n)) (f.dec_value n)
