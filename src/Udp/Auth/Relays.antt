-- ===== src/Udp/Auth/Relays.antt =====
-- `MarkRelayed` on a packet that carries a state.
use mathlib.Core.Option
use native.Mathlib.Nat.{suc-add}
use iedsync_together.Prelude.{
  ℕ, ◌⊎◌, ◌+◌, ◌≡◌, ◌∙◌, subst, refl, ap, sym, true, [], ◌∷◌, ◌++◌, none, some, length, drop, Lacks,
  Every-map, Bool-cases, inl, inr, take_front, append-nil, append_assoc,
}
use iedsync_together.Text.{starts_with, Bytes, codes, find, rfind, is_empty}
use iedsync_together.Text.Number.{Fmt}
use iedsync_together.Text.Plain.{IsPlain, IsPlain-Lacks, hex-IsPlain, digits-IsPlain}
use iedsync_together.Text.Search.{starts_with-append}
use iedsync_together.FormIdentity.Hex.{hex_encode}
use iedsync_together.FormIdentity.Hex.RoundTrip.{hex_encode-upper}
use iedsync_together.FormIdentity.Slots.{encode_slots}
use iedsync_together.FormIdentity.Slots.Plain.{encode_slots-IsPlain}
use iedsync_together.Packet.{read_field, gameplay_prefix}
use iedsync_together.Packet.Fields.{clear}
use iedsync_together.Packet.Clear.{clear-append, find-clear, rfind-clear, clear-Lacks}
use iedsync_together.Packet.State.{EndsField, read_relay}
use iedsync_together.SyncService.Remote.{parse_update, Update}
use iedsync_together.SyncService.Remote.Delivery.{parse_update-packet_of, IsSendable, packet_of}
use iedsync_together.Udp.{Windows}
use iedsync_together.Udp.Auth.{
  compute_hmac, authenticate_packet, auth_field, remove_auth_field, sign_packet, local_marker,
  set_marker, mark_relayed,
}
use iedsync_together.Udp.Auth.Tags.{rfind-none}
use iedsync_together.Udp.Auth.Signatures.{
  sign_packet_lem, sign_packet_unkeyed, authenticate_packet-sign_packet, compute_hmac_lem,
  remove_tag,
}

pub remove_none :
    (packet : Bytes) → rfind packet auth_field ≡ none → remove_auth_field packet ≡ packet
unfolding remove_auth_field
remove_none packet e = rw (remove_auth_field, e)

set_marker_lem :
    (pre rest : Bytes)
    → clear local_marker pre ≡ true
    → set_marker (pre ++ (local_marker ++ rest)) ≡ some (pre ++ (codes "|relay=1|" ++ rest))
unfolding set_marker
set_marker_lem pre rest h = rw (
  set_marker,
  find-clear b'|' (codes "relay=0|") pre rest h,
  take_front pre (local_marker ++ rest),
  drop_marker pre,
)
  where
    drop_marker :
        (pre : Bytes)
        → drop (length pre + length local_marker) (pre ++ (local_marker ++ rest)) ≡ rest
    drop_marker [] = refl
    drop_marker (c ∷ pre) = rw suc-add (drop_marker pre)

-- What may stand behind the payload: nothing, or a tag.
abbrev pub IsTag : Bytes → Type 0
IsTag tail = (tail ≡ []) ⊎ ((tag : Bytes) × (Lacks b'|' tag × (tail ≡ auth_field ++ tag)))

module _ ⦃f : Fmt⦄ (u : Update) (v : IsSendable u) where
  -- The packet up to its relay mark.
  head : Bytes
  head =
      gameplay_prefix ++ (codes "id=" ++ (u.instance_id ++ (codes "|from=" ++ hex_encode u.sender)))

  behind : Bytes
  behind = codes "STATE|rev=" ++ (f.dec u.revision ++ (codes "|slots=" ++ encode_slots u.slots))

  pub from_IsPlain : IsPlain (hex_encode u.sender)
  from_IsPlain = hex-IsPlain _ (hex_encode-upper u.sender)

  packet_split :
      (relay : ℕ)
      → packet_of u (relay ∷ []) [] ≡ head ++ (codes "|relay=" ++ (relay ∷ b'|' ∷ behind))
  unfolding head behind
  packet_split relay = simp (append_assoc, append-nil)

  clear-head : clear local_marker head ≡ true
  unfolding head
  clear-head =
      clear-append local_marker (codes "IEDST|v1|id=")
        (u.instance_id ++ (codes "|from=" ++ hex_encode u.sender)) refl
        (clear-append local_marker u.instance_id (codes "|from=" ++ hex_encode u.sender)
          (clear-Lacks b'|' (codes "relay=0|") _ (IsPlain-Lacks _ v.id_plain))
          (clear-append local_marker (codes "|from=") (hex_encode u.sender) refl
            (clear-Lacks b'|' (codes "relay=0|") _ (IsPlain-Lacks _ from_IsPlain))))

  pub rfind_packet :
      (relay : Bytes) → IsPlain relay → rfind (packet_of u relay []) auth_field ≡ none
  rfind_packet relay plain = past (codes "IEDST|v1|id=") _ refl (
      past_plain u.instance_id _ v.id_plain (
        past (codes "|from=") _ refl (
          past_plain (hex_encode u.sender) _ from_IsPlain (
            past (codes "|relay=") _ refl (
              past_plain relay _ plain (
                past (codes "|STATE|rev=") _ refl (
                  past_plain (f.dec u.revision) _ (digits-IsPlain _ (f.dec_digits u.revision)) (
                    past (codes "|slots=") _ refl (
                      past_plain (encode_slots u.slots) [] (encode_slots-IsPlain u.slots)
                        (rfind-none b'|' (codes "auth=") [] tt))))))))))
    where
      past :
          (pre rest : Bytes)
          → clear auth_field pre ≡ true
          → rfind rest auth_field ≡ none
          → rfind (pre ++ rest) auth_field ≡ none
      past = rfind-clear auth_field

      past_plain :
          (value rest : Bytes)
          → IsPlain value
          → rfind rest auth_field ≡ none
          → rfind (value ++ rest) auth_field ≡ none
      past_plain value rest p =
          rfind-clear auth_field value rest
            (clear-Lacks b'|' (codes "auth=") value (IsPlain-Lacks value p))

  pub bare_packet :
      (relay tail : Bytes)
      → IsPlain relay
      → IsTag tail
      → remove_auth_field (packet_of u relay [] ++ tail) ≡ packet_of u relay []
  bare_packet relay tail plain (inl none_there) =
      rw (none_there, append-nil (packet_of u relay [])) (remove_none _ (rfind_packet relay plain))
  bare_packet relay tail plain (inr (tag, (lacks, e))) =
      rw e (remove_tag (packet_of u relay []) tag lacks)

  pub mark_relayed-packet_of :
      ⦃w : Windows⦄
      → (secret tail : Bytes) → IsTag tail
      → mark_relayed secret (packet_of u (codes "0") [] ++ tail)
        ≡ some (sign_packet secret (packet_of u (codes "1") []))
  unfolding mark_relayed
  mark_relayed-packet_of secret tail t = rw (
    bare_packet (codes "0") tail (refl, tt) t,
    packet_split b'0',
    set_marker_lem head behind clear-head,
    packet_split b'1',
  )

  pub packet_tail : (relay tail : Bytes) → packet_of u relay [] ++ tail ≡ packet_of u relay tail
  packet_tail relay tail = simp (append_assoc, append-nil)

  -- A signed packet is the packet with nothing or a tag behind it.
  pub sign_packet-packet_of :
      ⦃w : Windows⦄
      → (secret relay digest : Bytes) → IsPlain relay
      → compute_hmac secret (packet_of u relay []) ≡ some digest
      → (tail : Bytes) × (IsTag tail
          × (sign_packet secret (packet_of u relay []) ≡ packet_of u relay [] ++ tail))
  sign_packet-packet_of secret relay digest plain made =
      let bare = remove_none (packet_of u relay []) (rfind_packet relay plain) in
      elim (Bool-cases (is_empty secret)) [
        | inl unkeyed ↦
            ([], (inl refl, sign_packet_unkeyed secret _ unkeyed ∙ bare ∙ sym (append-nil _)))
        | inr keyed ↦ (
          auth_field ++ digest,
          (
            inr (
              digest,
              (Every-map _ _ (λ c p. p.1) digest (compute_hmac_lem secret _ made), refl),
            ),
            sign_packet_lem secret _ digest keyed (ap (compute_hmac secret) bare ∙ made)
                ∙ ap (λ p. p ++ (auth_field ++ digest)) bare,
          ),
        )
      ]

pub IsTag-EndsField : (tail : Bytes) → IsTag tail → EndsField tail
IsTag-EndsField tail (inl e) = subst EndsField (sym e) tt
IsTag-EndsField tail (inr (tag, (lacks, e))) = subst EndsField (sym e) refl

-- What the relay sends on for a packet with a state that can be sent, with a tag behind it or not,
-- is that state marked as relayed and signed under the relay's secret: it reads back as the same
-- update, its relay mark is `1`, and it authenticates. The digest of the marked packet must be
-- computable.
pub mark_relayed_keeps :
    ⦃f : Fmt⦄
    → ⦃w : Windows⦄ → (u : Update) (secret tail digest : Bytes) → IsSendable u
    → IsTag tail
    → compute_hmac secret (packet_of u (codes "1") []) ≡ some digest
    → (relayed : Bytes) × ((mark_relayed secret (packet_of u (codes "0") [] ++ tail) ≡ some relayed)
        × ((parse_update relayed ≡ some u)
            × ((read_field relayed (codes "relay") ≡ some (codes "1"))
                × (authenticate_packet secret relayed ≡ true))))
mark_relayed_keeps ⦃f⦄ ⦃w⦄ u secret tail digest v t made =
    let (behind', (tagged, e)) =
      sign_packet-packet_of u v secret (codes "1") digest (refl, tt) made in
    let shape = e ∙ packet_tail u v (codes "1") behind' in
    let ends = IsTag-EndsField behind' tagged in
    let bare = remove_none (packet_of u (codes "1") []) (rfind_packet u v (codes "1") (refl, tt)) in
    (
      sign_packet secret (packet_of u (codes "1") []),
      (
        mark_relayed-packet_of u v secret tail t,
        (
          rw shape (parse_update-packet_of u (codes "1") behind' v (refl, tt) ends),
          (
            rw shape (
                read_relay u.instance_id (hex_encode u.sender) (codes "1") (f.dec u.revision)
                  (encode_slots u.slots) behind' v.id_plain (from_IsPlain u v) (refl, tt)
                  (digits-IsPlain _ (f.dec_digits u.revision)) (encode_slots-IsPlain u.slots) ends),
            authenticate_packet-sign_packet secret _ digest (ap (compute_hmac secret) bare ∙ made),
          ),
        ),
      ),
    )

too_short : set_marker (codes "IEDST|v1") ≡ none
unfolding set_marker find starts_with
too_short = refl

-- A packet that begins with the gameplay prefix, and whose `auth` field stands right behind it with
-- a tag that has no bar, makes the relay throw, whatever the secret: what is left of the packet is
-- shorter than the position at which the mark is to be inserted.
pub mark_relayed_throws :
    ⦃w : Windows⦄
    → (secret tag : Bytes) → Lacks b'|' tag
    → let packet = codes "IEDST|v1|auth=" ++ tag in
      (starts_with packet gameplay_prefix ≡ true) × (mark_relayed secret packet ≡ none)
unfolding mark_relayed
mark_relayed_throws secret tag lacks = (
  starts_with-append gameplay_prefix (codes "auth=" ++ tag),
  rw (remove_tag (codes "IEDST|v1") tag lacks) (ap (Option.map (sign_packet secret)) too_short),
)
