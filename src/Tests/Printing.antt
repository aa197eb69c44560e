-- ===== src/Tests/Printing.antt =====
-- Numbers in a base, by repeated division.
use native.Mathlib.Nat.{zero-mul}
use iedsync_together.Prelude.{
  ℕ, zero, suc, ◌+◌, ◌*◌, ◌/◌, ◌%◌, ◌≤◌, ◌<◌, ◌≡◌, ◌≢◌, ◌∙◌, refl, ap, true, [], ◌∷◌, ◌++◌, some,
  ltb, if◌then◌else◌, arith, Every, Every-append, Bool-cases, Option-cases, some_inj, ◌-◌, inl, inr,
}
use iedsync_together.Text.{Bytes}
use iedsync_together.Text.Number.{digit_in, value, is_digit, is_upper_hex, Fmt}

value-append :
    (base n : ℕ) (a b : Bytes) {m : ℕ}
    → value base n a ≡ some m
    → value base n (a ++ b) ≡ value base m b
value-append base n [] b e = ap (λ k. value base k b) (some_inj e)
value-append base n (c ∷ a) b e = elim (Option-cases (digit_in base c)) [
  | inl other ↦ ground (arith, rw (value, other) at e)
  | inr (d, read) ↦ rw (value, read) (value-append base (n * base + d) a b (rw (value, read) at e))
]

ne-nil_append : (a : Bytes) (c : ℕ) → (a ++ (c ∷ [])) ≢ []
ne-nil_append [] c e = ground arith
ne-nil_append (x ∷ a) c e = ground arith

module _ (base : ℕ) (char : ℕ → ℕ) where
  abbrev pub print : ℕ → ℕ → Bytes
  print zero n = char (n % base) ∷ []
  print (suc fuel) n =
      let front = print fuel (n / base) in
      (if ltb n base then [] else front) ++ (char (n % base) ∷ [])

module _ (base : ℕ) (char : ℕ → ℕ) (smaller : (n : ℕ) → base ≤ n → n / base < n)
    (split : (n : ℕ) → (n / base) * base + n % base ≡ n) (below : (n : ℕ) → n % base < base)
    (small : (n : ℕ) → n < base → n % base ≡ n)
    (read_char : (d : ℕ) → d < base → digit_in base (char d) ≡ some d) where
  pub print-ne-nil : (fuel n : ℕ) → print base char fuel n ≢ []
  print-ne-nil zero n = ne-nil_append [] _
  print-ne-nil (suc fuel) n = ne-nil_append _ _

  last_digit :
      (front : Bytes) (q n : ℕ)
      → value base 0 front ≡ some q
      → value base 0 (front ++ (char (n % base) ∷ [])) ≡ some (q * base + n % base)
  last_digit front q n e =
      value-append base 0 front _ e ∙ (rw (value, read_char (n % base) (below n)))

  pub value-print : (fuel n : ℕ) → n ≤ fuel → value base 0 (print base char fuel n) ≡ some n
  value-print zero n h =
      last_digit [] 0 n refl ∙ ap some (ground (arith, small n, split n, zero-mul base))
  value-print (suc fuel) n h = elim (Bool-cases (ltb n base)) [
    | inl one ↦
        rw one (last_digit [] 0 n refl ∙ ap some (ground (arith, one, small n, zero-mul base)))
    | inr more ↦ rw more (
        last_digit (print base char fuel (n / base)) (n / base) n
          (value-print fuel (n / base) (ground (arith, more, smaller n)))
        ∙ ap some (split n))
  ]

  module _ (P : ℕ → Type 0) (char_ok : (d : ℕ) → d < base → P (char d)) where
    pub print-Every : (fuel n : ℕ) → Every P (print base char fuel n)
    print-Every zero n = (char_ok (n % base) (below n), tt)
    print-Every (suc fuel) n = elim (Bool-cases (ltb n base)) [
      | inl one ↦ rw one (char_ok (n % base) (below n), tt)
      | inr more ↦ rw more (
          Every-append P (print base char fuel (n / base)) _ (print-Every fuel (n / base))
            (char_ok (n % base) (below n), tt))
    ]

abbrev pub hex_char : ℕ → ℕ
hex_char d = if ltb d 10 then b'0' + d else b'A' + (d - 10)

pub read_dec : (d : ℕ) → d < 10 → digit_in 10 (b'0' + d) ≡ some d
unfolding digit_in
read_dec d h = ground arith

pub read_hex : (d : ℕ) → d < 16 → digit_in 16 (hex_char d) ≡ some d
unfolding digit_in
read_hex d h = ground arith

pub dec_char_ok : (d : ℕ) → d < 10 → is_digit (b'0' + d) ≡ true
dec_char_ok d h = ground arith

pub hex_char_ok : (d : ℕ) → d < 16 → is_upper_hex (hex_char d) ≡ true
hex_char_ok d h = ground arith

-- The printed forms of a number, with fuel enough for it.
instance abbrev pub numerals : Fmt
numerals = record {
  dec = λ n. print 10 (λ d. b'0' + d) n n;
  hex = λ n. print 16 hex_char n n;
  dec_ne_nil = λ n.
      print-ne-nil 10 (λ d. b'0' + d) (λ n h. omega arith) (λ n. omega arith) (λ n. omega arith)
        (λ n h. omega arith) read_dec n n;
  hex_ne_nil = λ n.
      print-ne-nil 16 hex_char (λ n h. omega arith) (λ n. omega arith) (λ n. omega arith)
        (λ n h. omega arith) read_hex n n;
  dec_digits = λ n.
      print-Every 10 (λ d. b'0' + d) (λ n h. omega arith) (λ n. omega arith) (λ n. omega arith)
        (λ n h. omega arith) read_dec _ dec_char_ok n n;
  hex_digits = λ n.
      print-Every 16 hex_char (λ n h. omega arith) (λ n. omega arith) (λ n. omega arith)
        (λ n h. omega arith) read_hex _ hex_char_ok n n;
  dec_value = λ n.
      value-print 10 (λ d. b'0' + d) (λ n h. omega arith) (λ n. omega arith) (λ n. omega arith)
        (λ n h. omega arith) read_dec n n (omega arith);
  hex_value = λ n.
      value-print 16 hex_char (λ n h. omega arith) (λ n. omega arith) (λ n. omega arith)
        (λ n h. omega arith) read_hex n n (omega arith);
}
