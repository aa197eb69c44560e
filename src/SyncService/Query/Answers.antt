-- ===== src/SyncService/Query/Answers.antt =====
-- The answers of `QueryRemoteSlot`.
use mathlib.Core.List.{Mem, mem-cons_self, mem-cons_of_mem}
use iedsync_together.Prelude.{
  ℕ, ◌≡◌, ◌↔◌, ◌∙◌, sym, refl, true, false, not, ◌||◌, List, [], ◌∷◌, Option, none, some, leb, ◌==◌,
  arith, Bool-cases, Option-cases, inl, inr, subst, some_inj, ap, ==_iff,
}
use iedsync_together.Text.{Bytes}
use iedsync_together.Engine.{Engine, Form, lookup_actor}
use iedsync_together.FormIdentity.Slots.{FormIdentity, slot_count}
use iedsync_together.FormIdentity.Forms.{resolve_form_identity}
use iedsync_together.ProxyResolver.{is_likely_remote_player_proxy}
use iedsync_together.SyncService.{Service, Snapshot}
use iedsync_together.SyncService.Proxies.Blocking.{is_bound}
use iedsync_together.SyncService.Query.{
  SlotOverride, not_remote, empty, form, find_bound, identity_at, answer_identity,
  query_remote_slot,
}

find_bound-is_bound :
    (form_id : ℕ) (snapshots : List (Bytes × Snapshot))
    → (find_bound form_id snapshots ≡ none) ↔ (is_bound form_id snapshots ≡ false)
unfolding find_bound
find_bound-is_bound form_id [] = ground arith
find_bound-is_bound form_id ((id, snapshot) ∷ rest) =
    ground (arith, find_bound-is_bound form_id rest)

-- The answer is `not_remote` if and only if the slot is out of range, the actor does not look like
-- a proxy, or no snapshot is bound to it.
pub query_remote_slot-not_remote :
    (engine : Engine) (service : Service) (actor_form_id slot_index : ℕ)
    → (query_remote_slot engine service actor_form_id slot_index ≡ not_remote) ↔ (
        (leb slot_count slot_index
          || (not (is_likely_remote_player_proxy (lookup_actor engine actor_form_id))
              || not (is_bound actor_form_id service.snapshots)))
        ≡ true)
unfolding query_remote_slot answer_identity
query_remote_slot-not_remote engine service actor_form_id slot_index =
    ground (arith, find_bound-is_bound actor_form_id service.snapshots)

found_is_bound :
    (form_id : ℕ) (snapshots : List (Bytes × Snapshot)) {snapshot : Snapshot}
    → find_bound form_id snapshots ≡ some snapshot
    → snapshot.last_proxy ≡ form_id
unfolding find_bound
found_is_bound form_id [] e = ground arith
found_is_bound form_id ((id, first) ∷ rest) {snapshot} e =
    elim (Bool-cases (first.last_proxy == form_id)) [
      | inl here ↦
          subst (λ s. s.last_proxy ≡ form_id) (some_inj (rw here at e)) ((==_iff _ _).0 here)
      | inr later ↦ found_is_bound form_id rest (rw later at e)
    ]

abbrev put_out : SlotOverride → Option ℕ
put_out (form id) = some id
put_out _ = none

answer_failed :
    (engine : Engine) (i : FormIdentity)
    → resolve_form_identity engine i ≡ none
    → answer_identity engine (some i) ≡ empty
unfolding answer_identity
answer_failed engine i e = rw (answer_identity, e)

answer_made :
    (engine : Engine) (i : FormIdentity) {resolved : Form}
    → resolve_form_identity engine i ≡ some resolved
    → answer_identity engine (some i) ≡ form resolved.form_id
unfolding answer_identity
answer_made engine i e = rw (answer_identity, e)

answer_none : (engine : Engine) → answer_identity engine none ≡ empty
unfolding answer_identity
answer_none engine = refl

answer_form :
    (engine : Engine) (identity : Option FormIdentity) (out : ℕ)
    → put_out (answer_identity engine identity) ≡ some out
    → (i : FormIdentity) × ((identity ≡ some i)
        × ((resolved : Form) × ((resolve_form_identity engine i ≡ some resolved)
              × (resolved.form_id ≡ out))))
answer_form engine none out e = ground (arith, sym (ap put_out (answer_none engine)) ∙ e)
answer_form engine (some i) out e = elim (Option-cases (resolve_form_identity engine i)) [
  | inl failed ↦ ground (arith, sym (ap put_out (answer_failed engine i failed)) ∙ e)
  | inr (resolved, made) ↦
      (i, (refl, (resolved, (made, some_inj (sym (ap put_out (answer_made engine i made)) ∙ e)))))
]

found_is_stored :
    (form_id : ℕ) (snapshots : List (Bytes × Snapshot)) {snapshot : Snapshot}
    → find_bound form_id snapshots ≡ some snapshot
    → (id : Bytes) × Mem (id, snapshot) snapshots
unfolding find_bound
found_is_stored form_id [] e = ground arith
found_is_stored form_id ((id, first) ∷ rest) {snapshot} e =
    elim (Bool-cases (first.last_proxy == form_id)) [
      | inl here ↦ (
        id,
        subst (λ s. Mem (id, s) ((id, first) ∷ rest)) (some_inj (rw here at e)) mem-cons_self,
      )
      | inr later ↦
          let (i, m) = found_is_stored form_id rest (rw later at e) in (i, mem-cons_of_mem _ m)
    ]

-- A form is put out only for a slot below 19 of an actor that looks like a proxy, and only out of one
-- of the service's snapshots, which is bound to the actor: it is the form that the identity in that
-- snapshot's slot resolves to.
pub query_remote_slot-form :
    (engine : Engine) (service : Service) (actor_form_id slot_index out : ℕ)
    → query_remote_slot engine service actor_form_id slot_index ≡ form out
    → (leb slot_count slot_index ≡ false)
      × (is_likely_remote_player_proxy (lookup_actor engine actor_form_id) ≡ true)
      × ((id : Bytes) × (snapshot : Snapshot) × (i : FormIdentity) × (resolved : Form) × Mem
            (id, snapshot)
            service.snapshots
          × (snapshot.last_proxy ≡ actor_form_id)
          × (identity_at snapshot.slots slot_index ≡ some i)
          × (resolve_form_identity engine i ≡ some resolved)
          × (resolved.form_id ≡ out))
unfolding query_remote_slot
query_remote_slot-form engine service actor_form_id slot_index out e =
    elim (Bool-cases (
      leb slot_count slot_index
      || not (is_likely_remote_player_proxy (lookup_actor engine actor_form_id)))) [
        | inl refused ↦ ground (arith, ap put_out (rw refused at e))
        | inr taken ↦ elim (Option-cases (find_bound actor_form_id service.snapshots)) [
          | inl unbound ↦ ground (arith, ap put_out (rw (taken, unbound) at e))
          | inr (snapshot, found) ↦
              let (id, stored) = found_is_stored actor_form_id service.snapshots found in
              let (i, (at_slot, (resolved, (made, same)))) =
                answer_form engine (identity_at snapshot.slots slot_index) out
                  (ap put_out (rw (taken, found) at e)) in
              (
                ground (arith, taken),
                ground (arith, taken),
                (
                  id,
                  snapshot,
                  i,
                  resolved,
                  stored,
                  found_is_bound actor_form_id service.snapshots found,
                  at_slot,
                  made,
                  same,
                ),
              )
        ]
      ]
