-- ===== src/Packet/State.antt =====
-- The fields of a gameplay packet that carries the state of the slots, as the transports lay it out,
-- also with another relay mark and with fields behind it.
use iedsync_together.Prelude.{ℕ, ◌≡◌, refl, ◌∙◌, true, [], ◌∷◌, ◌++◌, some, append-nil, is_some}
use iedsync_together.Text.{Bytes, codes, find, starts_with}
use iedsync_together.Text.Search.{contains_behind, find_here, starts_with-append}
use iedsync_together.Text.Number.{Fmt}
use iedsync_together.FormIdentity.Hex.{hex_encode}
use iedsync_together.FormIdentity.Slots.{SlotState, encode_slots}
use iedsync_together.Packet.{gameplay_prefix, read_field, build_packet, state_payload}
use iedsync_together.Packet.Fields.{
  until_bar, read_field-eq-some, until_bar-value, until_bar_end, after-clear, after_here,
  clear_plain,
}
use iedsync_together.Text.Plain.{IsPlain, IsPlain-Lacks}

-- The packet from its five values and what follows them.
abbrev pub state_packet : Bytes → Bytes → Bytes → Bytes → Bytes → Bytes → Bytes
state_packet id from relay rev slots tail =
    gameplay_prefix
    ++ (codes "id="
        ++ (id
            ++ (codes "|from="
                ++ (from
                    ++ (codes "|relay="
                        ++ (relay
                            ++ (codes "|STATE|rev="
                                ++ (rev ++ (codes "|slots=" ++ (slots ++ tail))))))))))

-- What may follow a value: nothing, or another field.
abbrev pub EndsField : Bytes → Type 0
EndsField [] = Unit {0}
EndsField (c ∷ cs) = c ≡ b'|'

pub until_bar-EndsField : (v tail : Bytes) → IsPlain v → EndsField tail → until_bar (v ++ tail) ≡ v
until_bar-EndsField v [] p e = rw (append-nil v) (until_bar_end v (IsPlain-Lacks v p))
until_bar-EndsField v (c ∷ cs) p e = rw e (until_bar-value v cs (IsPlain-Lacks v p))

starts_state : (rest : Bytes) → is_some (find (codes "|STATE|" ++ rest) (codes "|STATE|")) ≡ true
starts_state rest = rw (find_here b'|' (codes "STATE|") rest)

module _ (id from relay rev slots tail : Bytes) (id_plain : IsPlain id)
    (from_IsPlain : IsPlain from) (relay_plain : IsPlain relay) (rev_plain : IsPlain rev)
    (slots_plain : IsPlain slots) (tail_ends : EndsField tail) where
  abbrev packet : Bytes
  packet = state_packet id from relay rev slots tail

  pub read_id : read_field packet (codes "id") ≡ some id
  read_id =
      read_field-eq-some packet (codes "id")
        (after-clear (codes "id=") (codes "IEDST|v1|") _ refl ∙ after_here b'i' (codes "d=") _)
        (until_bar-value id _ (IsPlain-Lacks id id_plain))

  pub read_from : read_field packet (codes "from") ≡ some from
  read_from =
      read_field-eq-some packet (codes "from")
        (after-clear (codes "from=") (codes "IEDST|v1|id=") _ refl
          ∙ after-clear (codes "from=") id _ (clear_plain b'f' _ id refl id_plain)
          ∙ after-clear (codes "from=") (codes "|") _ refl
          ∙ after_here b'f' (codes "rom=") _)
        (until_bar-value from _ (IsPlain-Lacks from from_IsPlain))

  pub read_relay : read_field packet (codes "relay") ≡ some relay
  read_relay =
      read_field-eq-some packet (codes "relay")
        (after-clear (codes "relay=") (codes "IEDST|v1|id=") _ refl
          ∙ after-clear (codes "relay=") id _ (clear_plain b'r' _ id refl id_plain)
          ∙ after-clear (codes "relay=") (codes "|from=") _ refl
          ∙ after-clear (codes "relay=") from _ (clear_plain b'r' _ from refl from_IsPlain)
          ∙ after-clear (codes "relay=") (codes "|") _ refl
          ∙ after_here b'r' (codes "elay=") _)
        (until_bar-value relay _ (IsPlain-Lacks relay relay_plain))

  pub read_rev : read_field packet (codes "rev") ≡ some rev
  read_rev =
      read_field-eq-some packet (codes "rev")
        (after-clear (codes "rev=") (codes "IEDST|v1|id=") _ refl
          ∙ after-clear (codes "rev=") id _ (clear_plain b'r' _ id refl id_plain)
          ∙ after-clear (codes "rev=") (codes "|from=") _ refl
          ∙ after-clear (codes "rev=") from _ (clear_plain b'r' _ from refl from_IsPlain)
          ∙ after-clear (codes "rev=") (codes "|relay=") _ refl
          ∙ after-clear (codes "rev=") relay _ (clear_plain b'r' _ relay refl relay_plain)
          ∙ after-clear (codes "rev=") (codes "|STATE|") _ refl
          ∙ after_here b'r' (codes "ev=") _)
        (until_bar-value rev _ (IsPlain-Lacks rev rev_plain))

  pub read_slots : read_field packet (codes "slots") ≡ some slots
  read_slots =
      read_field-eq-some packet (codes "slots")
        (after-clear (codes "slots=") (codes "IEDST|v1|id=") _ refl
          ∙ after-clear (codes "slots=") id _ (clear_plain b's' _ id refl id_plain)
          ∙ after-clear (codes "slots=") (codes "|from=") _ refl
          ∙ after-clear (codes "slots=") from _ (clear_plain b's' _ from refl from_IsPlain)
          ∙ after-clear (codes "slots=") (codes "|relay=") _ refl
          ∙ after-clear (codes "slots=") relay _ (clear_plain b's' _ relay refl relay_plain)
          ∙ after-clear (codes "slots=") (codes "|STATE|rev=") _ refl
          ∙ after-clear (codes "slots=") rev _ (clear_plain b's' _ rev refl rev_plain)
          ∙ after-clear (codes "slots=") (codes "|") _ refl
          ∙ after_here b's' (codes "lots=") _)
        (until_bar-EndsField slots tail slots_plain tail_ends)

  pub starts_gameplay : starts_with packet gameplay_prefix ≡ true
  starts_gameplay = starts_with-append gameplay_prefix _

  pub contains_state : is_some (find packet (codes "|STATE|")) ≡ true
  contains_state = contains_behind (codes "|STATE|") (codes "IEDST|v1|id=") _ (
      contains_behind (codes "|STATE|") id _ (
        contains_behind (codes "|STATE|") (codes "|from=") _ (
          contains_behind (codes "|STATE|") from _ (
            contains_behind (codes "|STATE|") (codes "|relay=") _
              (contains_behind (codes "|STATE|") relay _ (starts_state _))))))

-- What the transports build around the payload of the service.
pub build_packet-state_packet :
    ⦃f : Fmt⦄
    → (instance_id player_name : Bytes) (revision : ℕ) (slots : SlotState)
    → build_packet instance_id player_name (state_payload revision slots)
      ≡ state_packet instance_id
          (hex_encode player_name)
          (codes "0")
          (f.dec revision)
          (encode_slots slots)
          []
unfolding build_packet state_payload
build_packet-state_packet ⦃f⦄ instance_id player_name revision slots = rw append-nil
