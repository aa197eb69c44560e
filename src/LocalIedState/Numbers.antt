-- ===== src/LocalIedState/Numbers.antt =====
-- The integers of an object's line, printed and read by src/LocalIEDState.cpp.
use iedsync_together.Prelude.{
  ℕ, suc, ◌-◌, ◌^◌, ◌≤◌, ◌<◌, ◌≡◌, ◌≢◌, refl, true, false, [], ◌∷◌, Option, none, some, ltb, arith,
  Every, Every-map, Lacks, Bool-cases, inl, inr,
}
use iedsync_together.Text.{Bytes}
use iedsync_together.Text.Number.{Fmt, value, is_digit}
use iedsync_together.LocalIedState.{
  ℤ, pos, negsuc, as_int, parse_unsigned, parse_int, print_int, slot_code,
}

parse_unsigned-value :
    (max : ℕ) (s : Bytes) {n : ℕ}
    → s ≢ []
    → value 10 0 s ≡ some n
    → n ≤ max
    → parse_unsigned max s ≡ some n
unfolding parse_unsigned
parse_unsigned-value max [] ne e h = absurd (ne refl)
parse_unsigned-value max (c ∷ cs) ne e h = rw e (ground (arith, h))

parse_int-value :
    (s : Bytes) {n : ℕ}
    → s ≢ []
    → Every (λ c. is_digit c ≡ true) s
    → value 10 0 s ≡ some n
    → n < 2 ^ 31
    → parse_int s ≡ some (pos n)
unfolding parse_int
parse_int-value [] ne d e h = absurd (ne refl)
parse_int-value (c ∷ cs) {n} ne (d, ds) e h =
    rw (parse_unsigned-value (2 ^ 31 - 1) (c ∷ cs) ne e (omega arith)) (ground arith)

pub digits-Lacks :
    (b : ℕ) → is_digit b ≡ false → (s : Bytes) → Every (λ c. is_digit c ≡ true) s → Lacks b s
digits-Lacks b h = Every-map _ _ (λ c e. λ q. ground arith)

module _ ⦃f : Fmt⦄ where
  pub parse_unsigned-dec : (max n : ℕ) → n ≤ max → parse_unsigned max (f.dec n) ≡ some n
  parse_unsigned-dec max n h = parse_unsigned-value max (f.dec n) (f.dec_ne_nil n) (f.dec_value n) h

  pub parse_int-dec : (n : ℕ) → n < 2 ^ 31 → parse_int (f.dec n) ≡ some (pos n)
  parse_int-dec n h = parse_int-value (f.dec n) (f.dec_ne_nil n) (f.dec_digits n) (f.dec_value n) h

  -- The index of a slot as the line holds it: none, or one that an `int` can hold.
  pub parse_int-slot_code-none : parse_int (slot_code none) ≡ some (negsuc 0)
  unfolding slot_code print_int parse_int
  parse_int-slot_code-none = rw (parse_unsigned-dec (2 ^ 31) 1 (omega arith))

  pub parse_int-slot_code-some :
      (n : ℕ) → n < 2 ^ 31 → parse_int (slot_code (some n)) ≡ some (pos n)
  unfolding slot_code print_int as_int
  parse_int-slot_code-some n h = elim (Bool-cases (ltb n (2 ^ 31))) [
    | inl fits ↦ rw fits (parse_int-dec n h)
    | inr other ↦ absurd (ground (arith, other))
  ]

  print_int-Lacks : (b : ℕ) → is_digit b ≡ false → b ≢ b'-' → (z : ℤ) → Lacks b (print_int z)
  unfolding print_int
  print_int-Lacks b h ne (pos n) = digits-Lacks b h (f.dec n) (f.dec_digits n)
  print_int-Lacks b h ne (negsuc n) =
      (λ e. ground arith, digits-Lacks b h (f.dec (suc n)) (f.dec_digits (suc n)))

  pub slot_code-Lacks :
      (b : ℕ) → is_digit b ≡ false → b ≢ b'-' → (o : Option ℕ) → Lacks b (slot_code o)
  unfolding slot_code
  slot_code-Lacks b h ne none = print_int-Lacks b h ne (negsuc 0)
  slot_code-Lacks b h ne (some n) = print_int-Lacks b h ne (as_int n)
