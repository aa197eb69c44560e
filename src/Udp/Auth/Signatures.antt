-- ===== src/Udp/Auth/Signatures.antt =====
-- `SignPacket` and `AuthenticatePacket` against each other.
use native.Mathlib.Nat.{suc-add}
use iedsync_together.Prelude.{
  ℕ, ◌∙◌, ◌+◌, ◌^◌, ◌<◌, ◌≡◌, ◌≢◌, ◌↔◌, refl, ap, sym, true, false, [], ◌∷◌, ◌++◌, none, some, ◌==◌,
  ==_iff, length, drop, arith, Lacks, Every, Every-map, Every-take, Every-drop, ◌-◌, Bool-cases,
  Option-cases, inl, inr, some_inj, take_front, append-nil, subst,
}
use iedsync_together.Text.{Bytes, codes, find_from, rfind, is_empty}
use iedsync_together.Text.Search.{find-none}
use iedsync_together.FormIdentity.Hex.RoundTrip.{IsByteText}
use iedsync_together.Udp.{Windows}
use iedsync_together.Udp.Auth.{
  auth_field, compute_hmac, remove_auth_field, sign_packet, supplied_at, difference, same_tag,
  authenticate_packet,
}
use iedsync_together.Udp.Auth.Tags.{rfind_tag, lower_hex_lem, difference_lem}

same_tag_iff :
    (s e : Bytes)
    → Every (λ c. c < 2 ^ 8) s
    → Every (λ c. c < 2 ^ 8) e
    → (same_tag s e ≡ true) ↔ (s ≡ e)
unfolding same_tag
same_tag_iff s e p q = elim (Bool-cases (length s == length e)) [
  | inl same ↦ rw same (
      let lem = difference_lem 0 s e (omega arith) p q ((==_iff _ _).0 same) in
      ground (arith, lem, ==_iff (difference 0 s e) 0))
  | inr other ↦
      rw other
        (λ h. ground arith, λ h. ground (arith, other, ap length h, ==_iff (length s) (length e)))
]

below_byte : (c : ℕ) → c < 128 → c < 2 ^ 8
below_byte c p = omega arith

pub compute_hmac_lem :
    ⦃w : Windows⦄
    → (secret packet : Bytes) {tag : Bytes} → compute_hmac secret packet ≡ some tag
    → Every (λ c. (c < 128) × (c ≢ b'|')) tag
unfolding compute_hmac
compute_hmac_lem ⦃w⦄ secret packet e = elim (Option-cases (w.hmac_sha256 secret packet)) [
  | inl failed ↦ ground (arith, rw failed at e)
  | inr (digest, made) ↦ subst (Every _) (some_inj (rw made at e)) (lower_hex_lem digest)
]

drop_tag :
    (packet tag : Bytes)
    → drop (length packet + length auth_field) (packet ++ (auth_field ++ tag)) ≡ tag
drop_tag [] tag = refl
drop_tag (c ∷ packet) tag = rw suc-add (drop_tag packet tag)

module _ (packet tag : Bytes) (h : Lacks b'|' tag) where
  pub remove_tag : remove_auth_field (packet ++ (auth_field ++ tag)) ≡ packet
  unfolding remove_auth_field
  remove_tag =
      rw (remove_auth_field, rfind_tag packet tag h, drop_tag packet tag, find-none b'|' [] tag h)
        (rw (take_front packet (auth_field ++ tag)) (append-nil packet))

  supplied_tag : supplied_at (packet ++ (auth_field ++ tag)) (length packet) ≡ tag
  unfolding supplied_at
  supplied_tag = rw (drop_tag packet tag, find-none b'|' [] tag h) (drop_tag packet tag)

Every-supplied_at :
    (P : ℕ → Type 0) (packet : Bytes) (position : ℕ)
    → Every P packet
    → Every P (supplied_at packet position)
unfolding supplied_at
Every-supplied_at P packet position h =
    let start = position + length auth_field in
    elim (Option-cases (find_from packet (codes "|") start)) [
      | inl last ↦ rw last (Every-drop P start packet h)
      | inr (end, inner) ↦ rw inner (Every-take P (end - start) _ (Every-drop P start packet h))
    ]

module _ ⦃w : Windows⦄ (secret packet : Bytes) where
  pub sign_packet_unkeyed :
      is_empty secret ≡ true → sign_packet secret packet ≡ remove_auth_field packet
  unfolding sign_packet
  sign_packet_unkeyed unkeyed = rw unkeyed

  -- What `SignPacket` makes under a secret.
  pub sign_packet_lem :
      (tag : Bytes)
      → is_empty secret ≡ false
      → compute_hmac secret (remove_auth_field packet) ≡ some tag
      → sign_packet secret packet ≡ remove_auth_field packet ++ (auth_field ++ tag)
  unfolding sign_packet
  sign_packet_lem tag keyed signed = rw (keyed, signed)

  tagged :
      (tag : Bytes)
      → is_empty secret ≡ false
      → compute_hmac secret packet ≡ some tag
      → authenticate_packet secret (packet ++ (auth_field ++ tag)) ≡ true
  unfolding authenticate_packet
  tagged tag keyed signed =
      let good = compute_hmac_lem secret packet signed in
      let lacks = Every-map _ _ (λ c p. p.1) tag good in
      let bytes = Every-map _ _ (λ c p. below_byte c p.0) tag good in
      rw
        (
          keyed,
          rfind_tag packet tag lacks,
          remove_tag packet tag lacks,
          signed,
          supplied_tag packet tag lacks,
        )
        ((same_tag_iff tag tag bytes bytes).1 refl)

  unkeyed_authenticates : is_empty secret ≡ true → authenticate_packet secret packet ≡ true
  unfolding authenticate_packet
  unkeyed_authenticates unkeyed = rw unkeyed

-- Whatever is signed under a secret authenticates under it, provided that the digest can be computed.
pub authenticate_packet-sign_packet :
    ⦃w : Windows⦄
    → (secret packet tag : Bytes) → compute_hmac secret (remove_auth_field packet) ≡ some tag
    → authenticate_packet secret (sign_packet secret packet) ≡ true
authenticate_packet-sign_packet secret packet tag signed = elim (Bool-cases (is_empty secret)) [
  | inl unkeyed ↦ unkeyed_authenticates secret _ unkeyed
  | inr keyed ↦
      rw (sign_packet_lem secret packet tag keyed signed)
        (tagged secret (remove_auth_field packet) tag keyed signed)
]

module _ ⦃w : Windows⦄ (secret packet : Bytes) (keyed : is_empty secret ≡ false) where
  missing_field : rfind packet auth_field ≡ none → authenticate_packet secret packet ≡ false
  unfolding authenticate_packet
  missing_field missing = rw (keyed, missing)

  module _ {position : ℕ} (found : rfind packet auth_field ≡ some position) where
    no_digest :
        compute_hmac secret (remove_auth_field packet) ≡ none
        → authenticate_packet secret packet ≡ false
    unfolding authenticate_packet
    no_digest failed = rw (keyed, found, failed)

    compared :
        {tag : Bytes}
        → compute_hmac secret (remove_auth_field packet) ≡ some tag
        → authenticate_packet secret packet ≡ same_tag (supplied_at packet position) tag
    unfolding authenticate_packet
    compared made = rw (keyed, found, made)

-- Under a nonempty secret a packet of bytes authenticates if and only if it has an `auth` field,
-- and the value of the last one, as far as the next bar, is the tag of the packet without that
-- field.
pub authenticate_packet_iff :
    ⦃w : Windows⦄
    → (secret packet : Bytes) → is_empty secret ≡ false
    → IsByteText packet
    → (authenticate_packet secret packet ≡ true) ↔ (
        (position : ℕ) × ((rfind packet auth_field ≡ some position)
          × (compute_hmac secret (remove_auth_field packet) ≡ some (supplied_at packet position))))
authenticate_packet_iff secret packet keyed bytes = elim (Option-cases (rfind packet auth_field)) [
  | inl missing ↦
      rw (missing_field secret packet keyed missing, missing)
        (λ h. ground arith, λ h. ground (arith, h.1.0))
  | inr (position, found) ↦ elim (Option-cases (compute_hmac secret (remove_auth_field packet))) [
    | inl failed ↦
        rw (no_digest secret packet keyed found failed, failed)
          (λ h. ground arith, λ h. ground (arith, h.1.1))
    | inr (tag, made) ↦
        let small = Every-map _ _ (λ c p. below_byte c p.0) tag (compute_hmac_lem secret _ made) in
        let supplied = Every-supplied_at (λ c. c < 2 ^ 8) packet position bytes in
        let same = same_tag_iff (supplied_at packet position) tag supplied small in
        rw (compared secret packet keyed found made, found, made)
          (
            λ h. (position, (refl, ap some (sym (same.0 h)))),
            λ h. same.1 (ap (supplied_at packet) (some_inj h.1.0) ∙ sym (some_inj h.1.1)),
          )
  ]
]
