-- ===== src/IedBridge/Flags.antt =====
-- The flags of the slots that have been completed.
use iedsync_together.Prelude.{
  replicate, ◌≢◌, ℕ, zero, suc, ◌+◌, ◌≤◌, ◌<◌, ◌≡◌, refl, ap, Bool, true, false, ◌||◌, List, [],
  ◌∷◌, some, ◌==◌, if◌then◌else◌, get_elem?, set, length, arith, inl, inr, ◌⊎◌, some_inj,
}

-- The slots that are still to come.
abbrev pub open_slots : List Bool → ℕ
open_slots [] = 0
open_slots (b ∷ bs) = (if b then 0 else 1) + open_slots bs

pub open_slots-le : (bs : List Bool) → open_slots bs ≤ length bs
open_slots-le [] = omega arith
open_slots-le (b ∷ bs) = ground (arith, open_slots-le bs)

pub open_slots-set :
    (bs : List Bool) (i : ℕ)
    → get_elem? bs i ≡ some false
    → open_slots (set bs i true) + 1 ≡ open_slots bs
open_slots-set [] i h = cc
open_slots-set (b ∷ bs) zero h = ground arith
open_slots-set (b ∷ bs) (suc i) h = ground (arith, open_slots-set bs i h)

pub get_elem?-set-true :
    (bs : List Bool) (i j : ℕ)
    → get_elem? bs j ≡ some true
    → get_elem? (set bs i true) j ≡ some true
get_elem?-set-true [] i j h = h
get_elem?-set-true (b ∷ bs) zero zero h = refl
get_elem?-set-true (b ∷ bs) zero (suc j) h = h
get_elem?-set-true (b ∷ bs) (suc i) zero h = h
get_elem?-set-true (b ∷ bs) (suc i) (suc j) h = get_elem?-set-true bs i j h

pub set-true-get_elem? :
    (bs : List Bool) (i j : ℕ)
    → get_elem? (set bs i true) j ≡ some true
    → (get_elem? bs j ≡ some true) ⊎ (i ≡ j)
set-true-get_elem? [] i j h = inl h
set-true-get_elem? (b ∷ bs) zero zero h = inr refl
set-true-get_elem? (b ∷ bs) zero (suc j) h = inl h
set-true-get_elem? (b ∷ bs) (suc i) zero h = inl h
set-true-get_elem? (b ∷ bs) (suc i) (suc j) h = elim (set-true-get_elem? bs i j h) [
  | inl old ↦ inl old
  | inr e ↦ inr (ap suc e)
]

pub set-true_self :
    (bs : List Bool) (i : ℕ) → i < length bs → get_elem? (set bs i true) i ≡ some true
set-true_self [] i h = absurd (omega arith)
set-true_self (b ∷ bs) zero h = refl
set-true_self (b ∷ bs) (suc i) h = set-true_self bs i (omega arith)

pub open_slots_none :
    (bs : List Bool) → ((i : ℕ) → i < length bs → get_elem? bs i ≡ some true) → open_slots bs ≡ 0
open_slots_none [] h = refl
open_slots_none (b ∷ bs) h =
    rw (some_inj (h 0 (omega arith)), open_slots_none bs (λ i lt. h (suc i) (omega arith)))

pub all_completed :
    (bs : List Bool) (i : ℕ) → open_slots bs ≡ 0 → i < length bs → get_elem? bs i ≡ some true
all_completed [] i e h = absurd (omega arith)
all_completed (true ∷ bs) zero e h = refl
all_completed (false ∷ bs) zero e h = absurd (omega arith)
all_completed (true ∷ bs) (suc i) e h = all_completed bs i (omega arith) (omega arith)
all_completed (false ∷ bs) (suc i) e h = absurd (omega arith)

-- Some completion is for the slot.
abbrev pub mentions : ℕ → List (ℕ × ℕ) → Bool
mentions i [] = false
mentions i ((slot, form_id) ∷ events) = slot == i || mentions i events

pub in_range : (bs : List Bool) (i : ℕ) → i < length bs → (b : Bool) × (get_elem? bs i ≡ some b)
in_range [] i h = absurd (omega arith)
in_range (b ∷ bs) zero h = (b, refl)
in_range (b ∷ bs) (suc i) h = in_range bs i (omega arith)

pub none_set : (n i : ℕ) → get_elem? (replicate n false) i ≢ some true
none_set zero i h = cc
none_set (suc n) zero h = cc
none_set (suc n) (suc i) h = none_set n i h
