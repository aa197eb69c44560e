-- ===== src/Tests/Forms.antt =====
-- The hex code, the slots, the proxies and the captures at concrete inputs.
use mathlib.Core.List.{Mem}
use iedsync_together.Prelude.{ℕ, ◌≤◌, ◌<◌, ◌≡◌, ◌↔◌, refl, true, [], ◌∷◌, some, arith, length, ltb}
use iedsync_together.Text.{codes}
use iedsync_together.Engine.{Actor}
use iedsync_together.FormIdentity.Slots.{slot_count, encode_slots, decode_slots}
use iedsync_together.FormIdentity.Slots.RoundTrip.{decode_slots-encode}
use iedsync_together.ProxyResolver.{
  find_remote_player_proxy, find_remote_player_proxies, matches, scan, nearest, closer,
  equals_insensitive, is_likely_remote_player_proxy, contains_id,
}
use iedsync_together.ProxyResolver.Nearest.{IsOrder, NoneNearer, find_remote_player_proxy_nearest}
use iedsync_together.IedBridge.{new_request, complete_all}
use iedsync_together.IedBridge.Flags.{mentions}
use iedsync_together.IedBridge.Answered.{called_once}
use iedsync_together.Tests.Printing.{numerals}
use iedsync_together.Tests.Data.{worn, worn-IsSlot, ann, lists, engine}

decode_slots-encode_example : decode_slots (encode_slots worn) ≡ some worn
decode_slots-encode_example = decode_slots-encode worn refl worn-IsSlot

less-IsOrder : IsOrder ltb
less-IsOrder = record {
  asym = λ a b h. ground arith;
  irrefl = λ a. ground arith;
  not_less_trans = λ a b c h k. ground arith;
}

abbrev id_of : Actor → ℕ
id_of actor = actor.form_id

found_ann : find_remote_player_proxy ltb id_of (some lists) (codes "Ann") ≡ some ann
unfolding find_remote_player_proxy find_remote_player_proxies scan nearest matches closer
    equals_insensitive is_likely_remote_player_proxy contains_id
found_ann = refl

find_remote_player_proxy_nearest_example :
    (matches ltb id_of (codes "Ann") ann ≡ true)
    × Mem ann (find_remote_player_proxies (some lists))
    × NoneNearer ltb id_of less-IsOrder (codes "Ann") ann (find_remote_player_proxies (some lists))
find_remote_player_proxy_nearest_example =
    find_remote_player_proxy_nearest ltb id_of less-IsOrder (codes "Ann") (some lists) found_ann

called_once_example :
    (length (complete_all engine new_request ((0, 11) ∷ (0, 0) ∷ [])).1 ≤ 1)
    × ((length (complete_all engine new_request ((0, 11) ∷ (0, 0) ∷ [])).1 ≡ 1)
        ↔ ((i : ℕ) → i < slot_count → mentions i ((0, 11) ∷ (0, 0) ∷ []) ≡ true))
called_once_example = called_once engine ((0, 11) ∷ (0, 0) ∷ [])
