-- ===== src/ProxyResolver.antt =====
-- src/ProxyResolver.cpp: the actors that stand for remote players, and the one that stands for a
-- named player.
pub mod Nearest
use Prim.Native.Nat.{bit_and}
use iedsync_together.Prelude.{
  ℕ, ◌+◌, ◌≡◌, refl, Bool, true, false, ◌&&◌, ◌||◌, not, List, [], ◌∷◌, ◌++◌, Option, none, some,
  ◌==◌, leb, if◌then◌else◌, ◌>>=◌,
}
use iedsync_together.Text.{Bytes, is_empty}
use iedsync_together.Engine.{Engine, Actor}
use iedsync_together.IedBridge.{Surroundings}
use iedsync_together.FormIdentity.Forms.{dynamic_base}

-- `std::tolower` in the "C" locale.
abbrev pub to_lower : ℕ → ℕ
to_lower c = if leb b'A' c && leb c b'Z' then c + 32 else c

-- `std::equal` on texts of one size.
unfoldable pub equals_insensitive : Bytes → Bytes → Bool
equals_insensitive [] [] = true
equals_insensitive (l ∷ left) (r ∷ right) =
    to_lower l == to_lower r && equals_insensitive left right
equals_insensitive _ _ = false

-- `(id & dynamicMask) == dynamicMask`.
abbrev pub is_dynamic : ℕ → Bool
is_dynamic form_id = bit_and form_id dynamic_base == dynamic_base

unfoldable pub is_likely_remote_player_proxy : Option Actor → Bool
is_likely_remote_player_proxy none = false
is_likely_remote_player_proxy (some actor) =
    if actor.is_player_ref
    then false
    else elim actor.base [ none ↦ false | some base ↦ is_dynamic actor.form_id && is_dynamic base ]

-- `RE::ProcessLists`, each list with the actors that its handles give.
pub record ProcessLists : Type 0 where
  pub high : List (Option Actor)
  pub middle_high : List (Option Actor)
  pub middle_low : List (Option Actor)
  pub low : List (Option Actor)

unfoldable pub contains_id : ℕ → List ℕ → Bool
contains_id x [] = false
contains_id x (y ∷ ys) = x == y || contains_id x ys

-- The lambda `scan`, over the ids that were seen and the actors that are found behind them.
unfoldable pub scan : List (Option Actor) → List ℕ → List Actor
unfolding contains_id is_likely_remote_player_proxy
scan [] seen = []
scan (none ∷ handles) seen = scan handles seen
scan (some actor ∷ handles) seen =
    let skip = scan handles seen in
    let take = actor ∷ scan handles (actor.form_id ∷ seen) in
    if is_likely_remote_player_proxy (some actor) && not (contains_id actor.form_id seen)
    then take
    else skip

-- The four scans share the ids and the result, so they are one scan of the four lists in a row.
unfoldable pub find_remote_player_proxies : Option ProcessLists → List Actor
unfolding scan
find_remote_player_proxies none = []
find_remote_player_proxies (some lists) =
    scan (lists.high ++ lists.middle_high ++ lists.middle_low ++ lists.low) []

-- Distances are the engine's floats: `less` compares them, and `distance` is that to the local
-- player, or `0.0F` for all if there is none.
module _ {ℓ} {Distance : Type ℓ} (less : Distance → Distance → Bool)
    (distance : Actor → Distance) where
  unfoldable pub matches : Bytes → Actor → Bool
  unfolding equals_insensitive
  matches player_name actor = elim actor.name [
    | none ↦ false
    | some name ↦ equals_insensitive name player_name
  ]

  -- `!best || distance < bestDistance`.
  unfoldable pub closer : Option Actor → Actor → Bool
  closer none actor = true
  closer (some best) actor = less (distance actor) (distance best)

  unfoldable pub nearest : Bytes → List Actor → Option Actor → Option Actor
  unfolding matches closer
  nearest player_name [] best = best
  nearest player_name (actor ∷ actors) best =
      nearest player_name actors
        (if matches player_name actor && closer best actor then some actor else best)

  unfoldable pub find_remote_player_proxy : Option ProcessLists → Bytes → Option Actor
  unfolding nearest find_remote_player_proxies
  find_remote_player_proxy lists player_name =
      if is_empty player_name
      then none
      else nearest player_name (find_remote_player_proxies lists) none

-- The game at one moment, as a task on its thread finds it.
pub record World : Type 1 where
  pub Distance : Type 0
  pub less : Distance → Distance → Bool
  pub distance : Actor → Distance
  pub lists : Option ProcessLists
  pub engine : Engine
  pub around : Surroundings

abbrev pub find_proxy : World → Bytes → Option Actor
find_proxy world = find_remote_player_proxy world.less world.distance world.lists
