-- ===== src/FormIdentity/Hex/RoundTrip.antt =====
-- `HexEncode` and `HexDecode` against each other.
use iedsync_together.Prelude.{
  >>=-eq-some, some_inj, subst, ℕ, suc, ◌+◌, ◌-◌, ◌*◌, ◌/◌, ◌%◌, ◌<◌, ◌≡◌, refl, Bool, true, ◌&&◌,
  [], ◌∷◌, Option, none, some, leb, ◌==◌, ==_iff, if◌then◌else◌, length, Every, all_below,
  all_below_sound, arith, map, Option-cases, ◌>>=◌, inl, inr,
}
use iedsync_together.Text.{Bytes}
use iedsync_together.Text.Number.{is_upper_hex}
use iedsync_together.FormIdentity.Hex.{
  hex_value, hex_encode, hex_decode, decode_pairs, join_halves, digits, digit_at, high_half,
  low_half,
}

abbrev pub IsByteText : Bytes → Type 0
IsByteText = Every (λ c. c < 256)

-- The code of a byte, read back.
read_back : ℕ → Option ℕ
read_back c = hex_value (digit_at digits (high_half c)) >>= λ h.
    hex_value (digit_at digits (low_half c)) >>= λ l. some (join_halves h l)

abbrev is_value : ℕ → Option ℕ → Bool
is_value c none = c == suc c
is_value c (some n) = n == c

byte_table : all_below 256 (λ c. is_value c (read_back c)) ≡ true
unfolding all_below read_back hex_value join_halves
byte_table = refl

read_back_lem : (c : ℕ) → c < 256 → read_back c ≡ some c
read_back_lem c h = elim (Option-cases (read_back c)) [
  | inl e ↦ absurd (ground (arith, rw e at (all_below_sound 256 _ c byte_table h)))
  | inr (n, e) ↦ rw e (ground (arith, rw e at (all_below_sound 256 _ c byte_table h)))
]

decode_pairs-encode : (s : Bytes) → IsByteText s → decode_pairs (hex_encode s) ≡ some s
unfolding decode_pairs hex_encode read_back
decode_pairs-encode [] h = refl
decode_pairs-encode (c ∷ s) (lt, h) =
    let back : read_back c ≡ some c = read_back_lem c lt in
    ground (arith, decode_pairs-encode s h, back)

length-hex_encode : (s : Bytes) → length (hex_encode s) ≡ 2 * length s
unfolding hex_encode
length-hex_encode [] = refl
length-hex_encode (c ∷ s) = omega (arith, length-hex_encode s)

-- Every string of bytes survives the coding.
pub hex_decode-encode : (s : Bytes) → IsByteText s → hex_decode (hex_encode s) ≡ some s
unfolding hex_decode
hex_decode-encode s h = ground (arith, length-hex_encode s, decode_pairs-encode s h)

digit_table : all_below 16 (λ d. is_upper_hex (digit_at digits d)) ≡ true
unfolding all_below
digit_table = refl

-- The code is made of upper-case digits, so that no separator of a packet stands in it.
pub hex_encode-upper : (s : Bytes) → Every (λ c. is_upper_hex c ≡ true) (hex_encode s)
unfolding hex_encode
hex_encode-upper [] = tt
hex_encode-upper (c ∷ s) = (
  all_below_sound 16 _ (c / 16 % 16) digit_table (omega arith),
  (all_below_sound 16 _ (c % 16) digit_table (omega arith), hex_encode-upper s),
)

-- The digit of either case, written in upper case.
abbrev pub upper : ℕ → ℕ
upper c = if leb b'a' c && leb c b'z' then c - 32 else c

hex_value_lt : (c : ℕ) {d : ℕ} → hex_value c ≡ some d → d < 16
unfolding hex_value
hex_value_lt c h = ground arith

half_table :
    all_below 256 (λ x.
      high_half (join_halves (x / 16) (x % 16)) == x / 16
      && (low_half (join_halves (x / 16) (x % 16)) == x % 16))
    ≡ true
unfolding all_below join_halves
half_table = refl

join_halves_lem :
    (h l : ℕ)
    → h < 16
    → l < 16
    → (high_half (join_halves h l) ≡ h) × (low_half (join_halves h l) ≡ l)
join_halves_lem h l hh hl =
    let e1 : (h * 16 + l) / 16 ≡ h = omega arith in
    let e2 : (h * 16 + l) % 16 ≡ l = omega arith in
    ground (arith, rw (e1, e2) at (all_below_sound 256 _ (h * 16 + l) half_table (omega arith)))

is_upper_of : ℕ → Option ℕ → Bool
is_upper_of c none = true
is_upper_of c (some h) = digit_at digits h == upper c

upper_table : all_below 256 (λ c. is_upper_of c (hex_value c)) ≡ true
unfolding all_below hex_value is_upper_of
upper_table = refl

hex_value-upper : (c : ℕ) {h : ℕ} → hex_value c ≡ some h → (h < 16) × (digit_at digits h ≡ upper c)
unfolding is_upper_of
hex_value-upper c {h} e =
    let lt : c < 256 = unfold hex_value in ground arith in
    (hex_value_lt c e, (==_iff _ _).0 (rw e at (all_below_sound 256 _ c upper_table lt)))

decode_pairs-upper : (v : Bytes) {s : Bytes} → decode_pairs v ≡ some s → hex_encode s ≡ map upper v
unfolding decode_pairs hex_encode
decode_pairs-upper [] e = ground arith
decode_pairs-upper (a ∷ []) e = cc
decode_pairs-upper (a ∷ b ∷ rest) {s} e =
    let (h, eh, e1) = >>=-eq-some (hex_value a) _ e in
    let (l, el, e2) = >>=-eq-some (hex_value b) _ e1 in
    let (d, ed, e3) = >>=-eq-some (decode_pairs rest) _ e2 in
    let (hh, uh) = hex_value-upper a eh in
    let (hl, ul) = hex_value-upper b el in
    let (jh, jl) = join_halves_lem h l hh hl in
    let code : hex_encode (join_halves h l ∷ d) ≡ map upper (a ∷ b ∷ rest) =
      cc (jh, jl, uh, ul, decode_pairs-upper rest ed) in
    subst (λ t. hex_encode t ≡ map upper (a ∷ b ∷ rest)) (some_inj e3) code

-- Whatever is accepted is the code of what it is decoded to, up to the case of the digits.
pub hex_encode-decode : (v : Bytes) {s : Bytes} → hex_decode v ≡ some s → hex_encode s ≡ map upper v
unfolding hex_decode
hex_encode-decode v e = decode_pairs-upper v (ground arith)

decode_pairs-IsByteText : (v : Bytes) {s : Bytes} → decode_pairs v ≡ some s → IsByteText s
unfolding decode_pairs join_halves
decode_pairs-IsByteText [] e = ground arith
decode_pairs-IsByteText (a ∷ []) e = cc
decode_pairs-IsByteText (a ∷ b ∷ rest) {s} e =
    let (h, eh, e1) = >>=-eq-some (hex_value a) _ e in
    let (l, el, e2) = >>=-eq-some (hex_value b) _ e1 in
    let (d, ed, e3) = >>=-eq-some (decode_pairs rest) _ e2 in
    subst IsByteText (some_inj e3) (omega arith, decode_pairs-IsByteText rest ed)

pub hex_decode-IsByteText : (v : Bytes) {s : Bytes} → hex_decode v ≡ some s → IsByteText s
unfolding hex_decode
hex_decode-IsByteText v e = decode_pairs-IsByteText v (ground arith)
