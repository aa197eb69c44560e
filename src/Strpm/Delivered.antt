-- ===== src/Strpm/Delivered.antt =====
-- The adapter of src/STRPMAdapter.cpp among its callers: publications, retries and ends of sends.
use iedsync_together.Prelude.{
  ℕ, ◌≡◌, ◌⊎◌, inl, inr, refl, true, false, ◌||◌, List, ◌∷◌, Option, none, some, arith, Bool-cases,
  ltb, length,
}
use iedsync_together.Text.{Bytes, equal, is_empty}
use iedsync_together.Text.Search.{equal_iff}
use iedsync_together.Dict.{member, bytes_eq}
use iedsync_together.Strpm.{
  max_payload_bytes, Adapter, end_send, publish, retry_tick, clear_state, stop_adapter,
}

-- The adapter, the sends that have begun, and the payloads that the service has taken so far.
pub record Line : Type 0 where
  pub adapter : Adapter
  pub in_flight : List Bytes
  pub taken : List Bytes

abbrev pub joined : Option Bytes → List Bytes → List Bytes
joined none sends = sends
joined (some payload) sends = payload ∷ sends

-- One step: any call, or the end of a send that is in flight, in any order.
pub data Step : Line → Line → Type 0 where
  publishes :
      (l : Line) (payload : Bytes)
      → Step l (record l {
        adapter = (publish l.adapter payload).0;
        in_flight = joined (publish l.adapter payload).1 l.in_flight;
      })
  retries :
      (l : Line) (now : ℕ)
      → Step l (record l { in_flight = joined (retry_tick l.adapter now) l.in_flight })
  takes :
      (l : Line) (now : ℕ) (payload : Bytes)
      → member payload l.in_flight ≡ true
      → Step l
          (record l { adapter = end_send l.adapter now payload none; taken = payload ∷ l.taken })
  fails :
      (l : Line) (now failure : ℕ) (payload : Bytes)
      → member payload l.in_flight ≡ true
      → Step l (record l { adapter = end_send l.adapter now payload (some failure) })
  resets : (l : Line) → Step l (record l { adapter = clear_state l.adapter })
  stops : (l : Line) → Step l (record l { adapter = stop_adapter l.adapter })

pub data Reaches : Line → Line → Type 0 where
  start : (l : Line) → Reaches l l
  next : {k l m : Line} → Reaches k l → Step l m → Reaches k m

-- Nothing is to be sent, or a retry is due, or the service has taken the latest payload.
abbrev pub IsKept : Line → Type 0
IsKept l =
    (is_empty l.adapter.latest_payload ≡ true)
    ⊎ ((l.adapter.pending ≡ true) ⊎ (member l.adapter.latest_payload l.taken ≡ true))

member_here : (x : Bytes) (s : List Bytes) → member x (x ∷ s) ≡ true
unfolding member
member_here x s = ground (arith, equal_iff x x)

member_there : (x y : Bytes) (s : List Bytes) → member x s ≡ true → member x (y ∷ s) ≡ true
unfolding member
member_there x y s h = ground arith

publish-IsKept :
    (l : Line) (payload : Bytes) (sends : List Bytes)
    → IsKept l
    → IsKept (record l { adapter = (publish l.adapter payload).0; in_flight = sends })
unfolding publish
publish-IsKept l payload sends h =
    elim (Bool-cases (is_empty payload || ltb max_payload_bytes (length payload))) [
      | inl dropped ↦ rw dropped h
      | inr goes ↦ rw goes (inr (inl refl))
    ]

taken-IsKept :
    (l : Line) (now : ℕ) (payload : Bytes)
    → IsKept l
    → IsKept (record l { adapter = end_send l.adapter now payload none; taken = payload ∷ l.taken })
unfolding end_send
taken-IsKept l now payload (inl e) = inl e
taken-IsKept l now payload (inr (inl p)) =
    elim (Bool-cases (equal l.adapter.latest_payload payload)) [
      | inl same ↦ inr (inr (rw ((equal_iff _ _).0 same) (member_here payload l.taken)))
      | inr other ↦ inr (inl (ground (arith, p, other)))
    ]
taken-IsKept l now payload (inr (inr m)) =
    inr (inr (member_there l.adapter.latest_payload payload l.taken m))

failed-IsKept :
    (l : Line) (now failure : ℕ) (payload : Bytes)
    → IsKept l
    → IsKept (record l { adapter = end_send l.adapter now payload (some failure) })
unfolding end_send
failed-IsKept l now failure payload (inl e) = inl e
failed-IsKept l now failure payload (inr (inl e)) = inr (inl (ground arith))
failed-IsKept l now failure payload (inr (inr e)) = inr (inr e)

stop-IsKept : (l : Line) → IsKept l → IsKept (record l { adapter = stop_adapter l.adapter })
unfolding stop_adapter clear_state
stop-IsKept l h = elim (Bool-cases l.adapter.running) [
  | inl running ↦ rw running (inl refl)
  | inr stopped ↦ rw stopped h
]

Step-IsKept : {k l : Line} → Step k l → IsKept k → IsKept l
Step-IsKept (publishes l payload) h =
    publish-IsKept l payload (joined (publish l.adapter payload).1 l.in_flight) h
Step-IsKept (retries l now) h = h
Step-IsKept (takes l now payload m) h = taken-IsKept l now payload h
Step-IsKept (fails l now failure payload m) h = failed-IsKept l now failure payload h
Step-IsKept (resets l) h = inl (unfold clear_state in refl)
Step-IsKept (stops l) h = stop-IsKept l h

-- However publications, retries, ends of sends, resets and stops interleave, the latest payload is
-- never lost: if nothing is kept, or it is pending, or the service has taken it, then so it is after
-- any number of steps.
pub Reaches-IsKept : {k l : Line} → Reaches k l → IsKept k → IsKept l
Reaches-IsKept (start l) h = h
Reaches-IsKept (next r s) h = Step-IsKept s (Reaches-IsKept r h)

-- The latest payload is none or fits a message.
abbrev pub IsFit : Line → Type 0
IsFit l = ltb max_payload_bytes (length l.adapter.latest_payload) ≡ false

-- The service has the latest payload of the first line in the second, where it is the latest still and
-- nothing is pending.
abbrev pub IsDelivered : Line → Line → Type 0
IsDelivered l m =
    (m.adapter.latest_payload ≡ l.adapter.latest_payload)
    × (member l.adapter.latest_payload m.taken ≡ true)
    × (m.adapter.pending ≡ false)
