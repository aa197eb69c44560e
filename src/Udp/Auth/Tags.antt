-- ===== src/Udp/Auth/Tags.antt =====
-- The tags of src/UdpTransport.cpp, and the search for them.
use iedsync_together.Prelude.{
  ℕ, suc, ◌∙◌, ◌+◌, ◌^◌, ◌<◌, ◌≡◌, ◌≢◌, ◌↔◌, refl, ap, [], ◌∷◌, ◌++◌, none, some, length, bit_xor,
  bit_or, bit_xor_zero, bit_xor_lt, bit_or_zero, bit_or_lt, arith, Lacks, Every,
}
use iedsync_together.Text.{starts_with, Bytes, codes, rfind}
use iedsync_together.Udp.Auth.{auth_field, hex_digit, lower_hex, difference}

pub rfind-none : (k : ℕ) (ks s : Bytes) → Lacks k s → rfind s (k ∷ ks) ≡ none
unfolding rfind starts_with
rfind-none k ks [] h = refl
rfind-none k ks (c ∷ s) (ne, h) = rw (rfind-none k ks s h) (ground arith)

pub rfind_skip :
    (needle pre rest : Bytes) {n : ℕ}
    → rfind rest needle ≡ some n
    → rfind (pre ++ rest) needle ≡ some (length pre + n)
unfolding rfind
rfind_skip needle [] rest h = h ∙ ap some (omega arith)
rfind_skip needle (c ∷ pre) rest h = rw (rfind_skip needle pre rest h) (ap some (omega arith))

pub lower_hex_lem : (digest : Bytes) → Every (λ c. (c < 128) × (c ≢ b'|')) (lower_hex digest)
unfolding lower_hex hex_digit
lower_hex_lem [] = tt
lower_hex_lem (byte ∷ digest) =
    ((grind arith, λ e. grind arith), ((grind arith, λ e. grind arith), lower_hex_lem digest))

-- The last field of a signed packet is its tag.
pub rfind_tag :
    (packet tag : Bytes)
    → Lacks b'|' tag
    → rfind (packet ++ (auth_field ++ tag)) auth_field ≡ some (length packet)
unfolding rfind
rfind_tag packet tag h =
    rfind_skip auth_field packet (auth_field ++ tag) here ∙ ap some (omega arith)
  where
    here : rfind (auth_field ++ tag) auth_field ≡ some 0
    here = rw (rfind-none b'|' (codes "auth=") tag h) (ground arith)

-- The tags are compared byte for byte.
suc_inj : {m n : ℕ} → suc m ≡ suc n → m ≡ n
suc_inj e = omega arith

pub difference_lem :
    (acc : ℕ) (s e : Bytes)
    → acc < 2 ^ 8
    → Every (λ c. c < 2 ^ 8) s
    → Every (λ c. c < 2 ^ 8) e
    → length s ≡ length e
    → (difference acc s e ≡ 0) ↔ ((acc ≡ 0) × (s ≡ e))
unfolding difference
difference_lem acc [] [] a p q l = ground arith
difference_lem acc (x ∷ s) (y ∷ e) a (p, ps) (q, qs) l = ground (
  arith,
  bit_xor_zero 8 x y p q,
  bit_or_zero 8 acc (bit_xor 8 x y) a (bit_xor_lt 8 x y),
  difference_lem (bit_or 8 acc (bit_xor 8 x y)) s e (bit_or_lt 8 acc (bit_xor 8 x y)) ps qs
      (suc_inj l),
)
difference_lem acc [] (y ∷ e) a p q l = ground arith
difference_lem acc (x ∷ s) [] a p q l = ground arith
