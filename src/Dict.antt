-- ===== src/Dict.antt =====
-- `std::unordered_map` and `std::unordered_set`, as lists of entries in the order of insertion. The
-- keys are compared by an instance of `Eq`.
use iedsync_together.Prelude.{
  Every, subst, some_inj, ℕ, ◌≡◌, ◌↔◌, refl, Bool, true, false, ◌||◌, List, [], ◌∷◌, Option, none,
  some, arith, ◌==◌, ==_iff, if◌then◌else◌, Bool-cases, inl, inr, ◌≢◌, ◌⊎◌,
}
use iedsync_together.Text.{Bytes, equal}
use iedsync_together.Text.Search.{equal_iff}

pub record Eq {ℓ} (K : Type ℓ) : Type ℓ where
  pub beq : K → K → Bool
  pub beq_iff : (j k : K) → (beq j k ≡ true) ↔ (j ≡ k)

instance abbrev pub nat_eq : Eq ℕ
nat_eq = record { beq = ◌==◌; beq_iff = ==_iff }

instance abbrev pub bytes_eq : Eq Bytes
bytes_eq = record { beq = equal; beq_iff = equal_iff }

module _ {ℓ κ} {K : Type ℓ} {V : Type κ} ⦃e : Eq K⦄ where
  unfoldable pub lookup : K → List (K × V) → Option V
  lookup k [] = none
  lookup k ((j, v) ∷ m) = if e.beq j k then some v else lookup k m

  unfoldable pub insert : K → V → List (K × V) → List (K × V)
  insert k v [] = (k, v) ∷ []
  insert k v ((j, w) ∷ m) = if e.beq j k then (k, v) ∷ m else (j, w) ∷ insert k v m

  unfoldable pub erase : K → List (K × V) → List (K × V)
  erase k [] = []
  erase k ((j, w) ∷ m) = if e.beq j k then erase k m else (j, w) ∷ erase k m

  pub lookup-insert :
      (k j : K) (v : V) (m : List (K × V))
      → lookup j (insert k v m) ≡ (if e.beq k j then some v else lookup j m)
  unfolding lookup insert
  lookup-insert k j v [] = refl
  lookup-insert k j v ((i, w) ∷ m) =
      ground (arith, e.beq_iff k j, e.beq_iff i k, e.beq_iff i j, lookup-insert k j v m)

  pub lookup-insert_self : (k : K) (v : V) (m : List (K × V)) → lookup k (insert k v m) ≡ some v
  lookup-insert_self k v m = rw (lookup-insert k k v m, (e.beq_iff k k).1 refl)

  pub lookup-insert_ne :
      (k j : K) (v : V) (m : List (K × V)) → k ≢ j → lookup j (insert k v m) ≡ lookup j m
  lookup-insert_ne k j v m ne = rw (lookup-insert k j v m) (ground (arith, e.beq_iff k j))

  pub lookup-erase :
      (k j : K) (m : List (K × V)) → lookup j (erase k m) ≡ (if e.beq k j then none else lookup j m)
  unfolding lookup erase
  lookup-erase k j [] = ground arith
  lookup-erase k j ((i, w) ∷ m) =
      ground (arith, e.beq_iff k j, e.beq_iff i k, e.beq_iff i j, lookup-erase k j m)

-- Sets.
module _ {ℓ} {K : Type ℓ} ⦃e : Eq K⦄ where
  unfoldable pub member : K → List K → Bool
  member k [] = false
  member k (j ∷ s) = e.beq j k || member k s

  unfoldable pub add : K → List K → List K
  unfolding member
  add k s = if member k s then s else k ∷ s

  pub member-add : (k j : K) (s : List K) → member j (add k s) ≡ (e.beq k j || member j s)
  unfolding add member
  member-add k j s = elim (Bool-cases (member k s)) [
    | inl old ↦ rw old (known j (Bool-cases (e.beq k j)) old)
    | inr new ↦ rw new
  ]
    where
      known :
          (j : K)
          → (e.beq k j ≡ true) ⊎ (e.beq k j ≡ false)
          → member k s ≡ true
          → member j s ≡ (e.beq k j || member j s)
      known j (inl same) old = rw (same, ← (e.beq_iff k j).0 same) old
      known j (inr other) old = rw other

-- A predicate that holds of every value.
module _ {ℓ κ μ} {K : Type ℓ} {V : Type κ} ⦃e : Eq K⦄ (P : V → Type μ) where
  abbrev pub EveryValue : List (K × V) → Type μ
  EveryValue = Every (λ entry. P entry.1)

  pub EveryValue-insert :
      (k : K) (v : V) (m : List (K × V)) → P v → EveryValue m → EveryValue (insert k v m)
  unfolding insert
  EveryValue-insert k v [] p h = (p, tt)
  EveryValue-insert k v ((j, w) ∷ m) p (q, h) = elim (Bool-cases (e.beq j k)) [
    | inl same ↦ rw same (p, h)
    | inr other ↦ rw other (q, EveryValue-insert k v m p h)
  ]

  pub lookup-EveryValue :
      (k : K) (m : List (K × V)) {v : V} → lookup k m ≡ some v → EveryValue m → P v
  unfolding lookup
  lookup-EveryValue k [] l h = cc
  lookup-EveryValue k ((j, w) ∷ m) l (q, h) = elim (Bool-cases (e.beq j k)) [
    | inl same ↦ subst P (some_inj (rw same at l)) q
    | inr other ↦ lookup-EveryValue k m (rw other at l) h
  ]
