-- ===== src/Renderer/Apply/Visible.antt =====
-- The objects that `Apply` of src/RemoteIEDRenderer.cpp shows in the slots.
use mathlib.Core.Option
use iedsync_together.Prelude.{
  ℕ, zero, suc, ◌<◌, ◌≡◌, refl, ap, ◌∙◌, List, [], ◌∷◌, Option, none, some, ◌==◌, if◌then◌else◌,
  get_elem?, set, replicate, arith, Bool-cases, Option-cases, inl, inr, ◌⊎◌, subst, ==_iff,
}
use iedsync_together.FormIdentity.Slots.{slot_count}
use iedsync_together.LocalIedState.{Floats, CapturedIedObject}
use iedsync_together.Renderer.Apply.{visible_slot, place_at, place_visible, visible_slots}

get_elem?-set :
    {A : Type 0} (xs : List A) (i j : ℕ) (v : A)
    → get_elem? (set xs i v) j
      ≡ (if i == j then Option.map (λ _. v) (get_elem? xs j) else get_elem? xs j)
get_elem?-set [] i j v = ground arith
get_elem?-set (x ∷ xs) zero zero v = ground arith
get_elem?-set (x ∷ xs) zero (suc j) v = ground arith
get_elem?-set (x ∷ xs) (suc i) zero v = ground arith
get_elem?-set (x ∷ xs) (suc i) (suc j) v = get_elem?-set xs i j v ∙ ground arith

get_elem?-replicate : {A : Type 0} (n i : ℕ) (a : A) → i < n → get_elem? (replicate n a) i ≡ some a
get_elem?-replicate zero i a h = absurd (omega arith)
get_elem?-replicate (suc n) zero a h = refl
get_elem?-replicate (suc n) (suc i) a h = get_elem?-replicate n i a (omega arith)

module _ ⦃fl : Floats⦄ where
  -- Whether the object is to be shown in the slot.
  abbrev pub goes_to : ℕ → Option ℕ → CapturedIedObject → Option CapturedIedObject
  goes_to s none o = none
  goes_to s (some index) o = if index == s then some o else none

  abbrev pub or_else :
      Option CapturedIedObject → Option CapturedIedObject → Option CapturedIedObject
  or_else (some o) later = some o
  or_else none later = later

  -- The first object of the list that is to be shown in the slot.
  unfoldable pub first_in : ℕ → List CapturedIedObject → Option CapturedIedObject
  first_in s [] = none
  first_in s (o ∷ os) = or_else (goes_to s (visible_slot o) o) (first_in s os)

  or_else-none : (e : Option (Option CapturedIedObject)) → e ≡ Option.map (λ x. or_else x none) e
  or_else-none none = refl
  or_else-none (some none) = refl
  or_else-none (some (some o)) = refl

  place_free :
      (index s : ℕ) (o : CapturedIedObject) (e : Option (Option CapturedIedObject))
      → (index ≡ s → e ≡ some none)
      → (if index == s then Option.map (λ _. some o) e else e)
        ≡ Option.map (λ x. or_else x (if index == s then some o else none)) e
  place_free index s o e free = elim (Bool-cases (index == s)) [
    | inl same ↦ rw (same, free ((==_iff index s).0 same))
    | inr other ↦ rw other (or_else-none e)
  ]

  place_taken :
      (index s : ℕ) (o : CapturedIedObject) (e : Option (Option CapturedIedObject))
      → (index ≡ s → (e ≡ none) ⊎ ((x : CapturedIedObject) × (e ≡ some (some x))))
      → e ≡ Option.map (λ x. or_else x (if index == s then some o else none)) e
  place_taken index s o e taken = elim (Bool-cases (index == s)) [
    | inl same ↦ elim (taken ((==_iff index s).0 same)) [
      | inl outside ↦ rw (same, outside)
      | inr (x, full) ↦ rw (same, full)
    ]
    | inr other ↦ rw other (or_else-none e)
  ]

  place_at-goes_to :
      (target : Option ℕ) (o : CapturedIedObject) (slots : List (Option CapturedIedObject)) (s : ℕ)
      → get_elem? (place_at target o slots) s
        ≡ Option.map (λ e. or_else e (goes_to s target o)) (get_elem? slots s)
  unfolding place_at
  place_at-goes_to none o slots s = or_else-none (get_elem? slots s)
  place_at-goes_to (some index) o slots s = elim (Option-cases (get_elem? slots index)) [
    | inl outside ↦
        rw (place_at, outside)
          (place_taken index s o (get_elem? slots s)
            (λ same. inl (subst (λ k. get_elem? slots k ≡ none) same outside)))
    | inr (none, free) ↦
        rw (place_at, free, get_elem?-set slots index s (some o))
          (place_free index s o (get_elem? slots s)
            (λ same. subst (λ k. get_elem? slots k ≡ some none) same free))
    | inr (some earlier, taken) ↦
        rw (place_at, taken)
          (place_taken index s o (get_elem? slots s) (λ same.
            inr (earlier, subst (λ k. get_elem? slots k ≡ some (some earlier)) same taken)))
  ]

  or_else_assoc :
      (a b : Option CapturedIedObject) (e : Option (Option CapturedIedObject))
      → Option.map (λ x. or_else x b) (Option.map (λ x. or_else x a) e)
        ≡ Option.map (λ x. or_else x (or_else a b)) e
  or_else_assoc a b none = refl
  or_else_assoc a b (some none) = refl
  or_else_assoc a b (some (some o)) = refl

  place_visible-first_in :
      (os : List CapturedIedObject) (slots : List (Option CapturedIedObject)) (s : ℕ)
      → get_elem? (place_visible os slots) s
        ≡ Option.map (λ e. or_else e (first_in s os)) (get_elem? slots s)
  unfolding place_visible first_in
  place_visible-first_in [] slots s = or_else-none (get_elem? slots s)
  place_visible-first_in (o ∷ os) slots s =
      place_visible-first_in os (place_at (visible_slot o) o slots) s
      ∙ rw (place_at-goes_to (visible_slot o) o slots s)
          (or_else_assoc (goes_to s (visible_slot o) o) (first_in s os) (get_elem? slots s))

  pub visible_slots-first_in :
      (objects : List CapturedIedObject) (s : ℕ)
      → s < slot_count
      → get_elem? (visible_slots objects) s ≡ some (first_in s objects)
  unfolding visible_slots
  visible_slots-first_in objects s h =
      place_visible-first_in objects (replicate slot_count none) s
      ∙ ap (Option.map (λ e. or_else e (first_in s objects)))
          (get_elem?-replicate slot_count s none h)
