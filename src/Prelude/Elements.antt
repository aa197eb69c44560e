-- ===== src/Prelude/Elements.antt =====
-- A predicate that holds of every element, computed by recursion.
use Prim.Native.Nat.{ℕ, zero, suc}
use mathlib.Core.Logic.{◌≢◌}
use mathlib.Core.List.{List, [], ◌∷◌, ◌++◌}
use iedsync_together.Prelude.Lists.{take, drop}

abbrev pub Every {ℓ κ} : {A : Type ℓ} → (A → Type κ) → List A → Type κ
Every P [] = Unit
Every P (x ∷ xs) = P x × Every P xs

module _ {ℓ κ} {A : Type ℓ} (P : A → Type κ) where
  pub Every-append : (xs ys : List A) → Every P xs → Every P ys → Every P (xs ++ ys)
  Every-append [] ys _ hy = hy
  Every-append (x ∷ xs) ys (px, hx) hy = (px, Every-append xs ys hx hy)

  pub Every-map {μ} :
      (Q : A → Type μ) → ((a : A) → P a → Q a) → (xs : List A) → Every P xs → Every Q xs
  Every-map Q f [] _ = tt
  Every-map Q f (x ∷ xs) (px, hx) = (f x px, Every-map Q f xs hx)

  pub Every-right : (xs ys : List A) → Every P (xs ++ ys) → Every P ys
  Every-right [] ys h = h
  Every-right (x ∷ xs) ys (px, h) = Every-right xs ys h

  pub Every-take : (n : ℕ) (xs : List A) → Every P xs → Every P (take n xs)
  Every-take zero xs h = tt
  Every-take (suc n) [] h = tt
  Every-take (suc n) (x ∷ xs) (px, h) = (px, Every-take n xs h)

  pub Every-drop : (n : ℕ) (xs : List A) → Every P xs → Every P (drop n xs)
  Every-drop zero xs h = h
  Every-drop (suc n) [] h = tt
  Every-drop (suc n) (x ∷ xs) (px, h) = Every-drop n xs h

-- The byte `b` does not occur.
abbrev pub Lacks : ℕ → List ℕ → Type 0
Lacks b = Every (λ c. c ≢ b)
