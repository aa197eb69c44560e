-- ===== src/ProxyResolver/Nearest.antt =====
-- The choice among the proxies in `FindRemotePlayerProxy`.
use mathlib.Core.List.{Mem, mem-cons_self, mem-cons_of_mem}
use iedsync_together.Prelude.{
  ◌≡◌, Bool, true, false, ◌&&◌, List, [], ◌∷◌, Option, none, some, arith, Every, Bool-cases,
  some_inj, subst, sym, inl, inr, ◌⊎◌,
}
use iedsync_together.Text.{Bytes, is_empty}
use iedsync_together.Engine.{Actor}
use iedsync_together.ProxyResolver.{
  ProcessLists, find_remote_player_proxies, find_remote_player_proxy, nearest, matches, closer,
}

-- Distances that are compared by a strict weak order, as floats are with no `NaN` among them.
pub record IsOrder {ℓ} {D : Type ℓ} (less : D → D → Bool) : Type ℓ where
  pub asym : (a b : D) → less a b ≡ true → less b a ≡ false
  pub irrefl : (a : D) → less a a ≡ false
  pub not_less_trans : (a b c : D) → less a b ≡ false → less b c ≡ false → less a c ≡ false

module _ {ℓ} {D : Type ℓ} (less : D → D → Bool) (distance : Actor → D) (o : IsOrder less)
    (name : Bytes) where
  -- No actor of the list that has the name is nearer than `r`.
  abbrev pub NoneNearer : Actor → List Actor → Type 0
  NoneNearer r =
      Every (λ a. matches less distance name a ≡ true → less (distance a) (distance r) ≡ false)

  abbrev From : Option Actor → List Actor → Actor → Type 0
  From best actors r = (best ≡ some r) ⊎ ((matches less distance name r ≡ true) × Mem r actors)

  abbrev NotFartherThan : Actor → Option Actor → Type 0
  NotFartherThan r none = Unit
  NotFartherThan r (some b) = less (distance b) (distance r) ≡ false

  took_actor :
      (a r : Actor) (actors : List Actor) (best : Option Actor)
      → (matches less distance name a && closer less distance best a) ≡ true
      → From (some a) actors r × NoneNearer r actors × NotFartherThan r (some a)
      → From best (a ∷ actors) r × NoneNearer r (a ∷ actors) × NotFartherThan r best
  unfolding closer
  took_actor a r actors best t (from, none_nearer, near) =
      (from_a from, ((λ _. near), none_nearer), than best t)
    where
      named :
          (b : Option Actor)
          → (matches less distance name a && closer less distance b a) ≡ true
          → matches less distance name a ≡ true
      named b h = ground arith

      from_a : From (some a) actors r → From best (a ∷ actors) r
      from_a (inl e) = inr (
          subst (λ x. (matches less distance name x ≡ true) × Mem x (a ∷ actors)) (some_inj e)
            (named best t, mem-cons_self))
      from_a (inr (m, mem)) = inr (m, mem-cons_of_mem a mem)

      than :
          (b : Option Actor)
          → (matches less distance name a && closer less distance b a) ≡ true
          → NotFartherThan r b
      than none h = tt
      than (some b) h =
          o.not_less_trans (distance b) (distance a) (distance r)
            (o.asym (distance a) (distance b) (ground arith)) near

  kept_best :
      (a r : Actor) (actors : List Actor) (best : Option Actor)
      → (matches less distance name a && closer less distance best a) ≡ false
      → From best actors r × NoneNearer r actors × NotFartherThan r best
      → From best (a ∷ actors) r × NoneNearer r (a ∷ actors) × NotFartherThan r best
  unfolding closer
  kept_best a r actors best t (from, none_nearer, near) =
      (from_more from, (than best t near, none_nearer), near)
    where
      from_more : From best actors r → From best (a ∷ actors) r
      from_more (inl e) = inl e
      from_more (inr (m, mem)) = inr (m, mem-cons_of_mem a mem)

      than :
          (b : Option Actor)
          → (matches less distance name a && closer less distance b a) ≡ false
          → NotFartherThan r b
          → matches less distance name a ≡ true
          → less (distance a) (distance r) ≡ false
      than none h n m = cc (rw m at h)
      than (some b) h n m = o.not_less_trans (distance a) (distance b) (distance r) (rw m at h) n

  nearest_found :
      (actors : List Actor) (best : Option Actor) {r : Actor}
      → nearest less distance name actors best ≡ some r
      → From best actors r × NoneNearer r actors × NotFartherThan r best
  unfolding nearest
  nearest_found [] best {r} e =
      (inl e, tt, subst (NotFartherThan r) (sym e) (o.irrefl (distance r)))
  nearest_found (a ∷ actors) best {r} e =
      elim (Bool-cases (matches less distance name a && closer less distance best a)) [
        | inl better ↦
            took_actor a r actors best better (nearest_found actors (some a) (rw better at e))
        | inr other ↦ kept_best a r actors best other (nearest_found actors best (rw other at e))
      ]

  nearest-none :
      (actors : List Actor) (best : Option Actor)
      → nearest less distance name actors best ≡ none
      → (best ≡ none) × Every (λ a. matches less distance name a ≡ false) actors
  unfolding nearest
  nearest-none [] best e = (e, tt)
  nearest-none (a ∷ actors) best e =
      elim (Bool-cases (matches less distance name a && closer less distance best a)) [
        | inl better ↦ cc (nearest-none actors (some a) (rw better at e)).0
        | inr other ↦
            let (b, rest) = nearest-none actors best (rw other at e) in
            (b, (no_match best b other, rest))
      ]
    where
      no_match :
          (best : Option Actor)
          → best ≡ none
          → (matches less distance name a && closer less distance best a) ≡ false
          → matches less distance name a ≡ false
      no_match best b h = unfold closer in ground arith

  -- If the comparison orders the distances, then the proxy that is found for a name is one of the
  -- proxies, has the name, and no proxy that has the name is nearer to the local player.
  pub find_remote_player_proxy_nearest :
      (lists : Option ProcessLists) {r : Actor}
      → find_remote_player_proxy less distance lists name ≡ some r
      → (matches less distance name r ≡ true)
        × Mem r (find_remote_player_proxies lists)
        × NoneNearer r (find_remote_player_proxies lists)
  unfolding find_remote_player_proxy
  find_remote_player_proxy_nearest lists {r} e = elim (Bool-cases (is_empty name)) [
    | inl unnamed ↦ cc (rw unnamed at e)
    | inr named ↦
        let (from, none_nearer, _) =
          nearest_found (find_remote_player_proxies lists) none (rw named at e) in
        elim from [ inl b ↦ cc b | inr (m, mem) ↦ (m, mem, none_nearer) ]
  ]

  -- If the comparison orders the distances and no proxy is found for a nonempty name, then none of
  -- the proxies has that name.
  pub find_remote_player_proxy-none :
      (lists : Option ProcessLists)
      → is_empty name ≡ false
      → find_remote_player_proxy less distance lists name ≡ none
      → Every (λ a. matches less distance name a ≡ false) (find_remote_player_proxies lists)
  unfolding find_remote_player_proxy
  find_remote_player_proxy-none lists named e =
      (nearest-none (find_remote_player_proxies lists) none (rw named at e)).1
