-- ===== src/Text/Plain.antt =====
-- Values that cannot be taken for another part of a packet.
use iedsync_together.Prelude.{
  ℕ, ◌≡◌, Bool, true, not, ◌&&◌, ◌==◌, leb, arith, Every, Every-map, Lacks,
}
use iedsync_together.Text.{Bytes}
use iedsync_together.Text.Number.{is_upper_hex, is_digit}

-- A byte of a value that is no lower-case letter and no bar: keys begin with a lower-case letter.
abbrev pub is_plain : ℕ → Bool
is_plain c = not (leb b'a' c && leb c b'z') && not (c == b'|')

abbrev pub IsPlain : Bytes → Type 0
IsPlain = Every (λ c. is_plain c ≡ true)

pub IsPlain-Lacks : (s : Bytes) → IsPlain s → Lacks b'|' s
IsPlain-Lacks s = Every-map _ _ (λ c h. λ e. ground arith) s

pub hex-IsPlain : (s : Bytes) → Every (λ c. is_upper_hex c ≡ true) s → IsPlain s
hex-IsPlain s = Every-map _ _ (λ c h. ground arith) s

pub digits-IsPlain : (s : Bytes) → Every (λ c. is_digit c ≡ true) s → IsPlain s
digits-IsPlain s = Every-map _ _ (λ c h. ground arith) s
