-- ===== src/Renderer/Apply/Repeated.antt =====
-- Two calls of `Apply` of src/RemoteIEDRenderer.cpp, one after the other.
use iedsync_together.Prelude.{
  ℕ, ◌≡◌, refl, ◌∙◌, Bool, true, false, not, ◌&&◌, [], some, if◌then◌else◌, arith, Bool-cases,
  Option-cases, inl, inr,
}
use iedsync_together.Text.{Bytes}
use iedsync_together.Text.Search.{equal_self}
use iedsync_together.Text.Number.{Fmt}
use iedsync_together.Dict.{lookup, lookup-insert_self, nat_eq}
use iedsync_together.Engine.{Actor}
use iedsync_together.LocalIedState.{Floats, LocalIedState, encode_local_ied_state}
use iedsync_together.Renderer.{Renderer, TrackedProxyState, schedule_watchdog_tick}
use iedsync_together.Renderer.Calls.{Vm}
use iedsync_together.Renderer.Apply.{
  Stage, Outcome, proxy_actor, is_applied, rename_proxy, remember, show_items, apply,
}

module _ ⦃fl : Floats⦄ where
  -- Scheduling a tick changes no signature.
  pub schedule_watchdog_tick-signatures :
      (has_tasks : Bool) (r : Renderer)
      → (schedule_watchdog_tick has_tasks r).applied_signatures ≡ r.applied_signatures
  unfolding schedule_watchdog_tick
  schedule_watchdog_tick-signatures has_tasks r = ground arith

  rename_proxy-signatures :
      (r : Renderer) (proxy connection : ℕ) (name : Bytes)
      → (rename_proxy r proxy connection name).applied_signatures ≡ r.applied_signatures
  unfolding rename_proxy
  rename_proxy-signatures r proxy connection name =
      elim (Option-cases (lookup proxy r.tracked_proxies)) [
        | inl new ↦ rw (rename_proxy, new)
        | inr (tracked, known) ↦ rw (rename_proxy, known)
      ]

  remember-accepted :
      (stage : Stage) (r : Renderer) (proxy : ℕ) (tracked : TrackedProxyState) (signature : Bytes)
      → lookup proxy (remember stage r proxy tracked signature true).applied_signatures
        ≡ some signature
  unfolding remember
  remember-accepted stage r proxy tracked signature = lookup-insert_self proxy signature _

module _ ⦃f : Fmt⦄ ⦃fl : Floats⦄ where
  -- A proxy that can be shown, its actor and the script engine.
  pub record IsReady (stage : Stage) (proxy : ℕ) : Type 0 where
    pub actor : Actor
    pub machine : Vm
    pub has_actor : proxy_actor stage proxy ≡ some actor
    pub has_machine : stage.vm ≡ some machine

  -- What `Apply` does if the proxy cannot be shown, and if it shows the state already.
  abbrev pub refused : Renderer → Outcome
  refused r = record { renderer = r; calls = []; result = false }

  abbrev pub shown : Stage → Renderer → ℕ → ℕ → Bytes → Outcome
  shown stage r connection proxy name = record {
    renderer = schedule_watchdog_tick stage.has_tasks (rename_proxy r proxy connection name);
    calls = [];
    result = true;
  }

  -- A predicate of an outcome, by the ways that `Apply` can take.
  pub apply-every :
      (P : Outcome → Type 0) (stage : Stage) (r : Renderer) (connection proxy : ℕ) (name : Bytes)
      (state : LocalIedState) (force : Bool)
      → P (refused r)
      → (is_applied r proxy (encode_local_ied_state state) ≡ true
          → P (shown stage r connection proxy name))
      → ((vm : Vm) (actor : Actor) → P (show_items stage vm r actor connection proxy name state))
      → P (apply stage r connection proxy name state force)
  unfolding apply
  apply-every P stage r connection proxy name state force not_shown known shows =
      elim (Option-cases (proxy_actor stage proxy)) [
        | inl gone ↦ rw (apply, gone) not_shown
        | inr (actor, there) ↦ elim (Option-cases stage.vm) [
          | inl off ↦ rw (apply, there, off) not_shown
          | inr (vm, on) ↦ rw (apply, there, on) (shows_or_known vm actor)
        ]
      ]
    where
      shows_or_known :
          (vm : Vm) (actor : Actor)
          → P (
              if not force && is_applied r proxy (encode_local_ied_state state)
              then shown stage r connection proxy name
              else show_items stage vm r actor connection proxy name state)
      shows_or_known vm actor =
          elim (Bool-cases (not force && is_applied r proxy (encode_local_ied_state state))) [
            | inl same ↦ rw same (known (ground (arith, same)))
            | inr other ↦ rw other (shows vm actor)
          ]

  is_applied-signatures :
      (r s : Renderer) (proxy : ℕ) (signature : Bytes)
      → r.applied_signatures ≡ s.applied_signatures
      → is_applied r proxy signature ≡ is_applied s proxy signature
  unfolding is_applied
  is_applied-signatures r s proxy signature e = rw e

  is_applied-lookup :
      (r : Renderer) (proxy : ℕ) (signature : Bytes)
      → lookup proxy r.applied_signatures ≡ some signature
      → is_applied r proxy signature ≡ true
  unfolding is_applied
  is_applied-lookup r proxy signature e = rw (is_applied, e) (equal_self signature)

  show_items-is_applied :
      (stage : Stage) (vm : Vm) (r : Renderer) (actor : Actor) (connection proxy : ℕ) (name : Bytes)
      (state : LocalIedState)
      → (show_items stage vm r actor connection proxy name state).result ≡ true
      → is_applied
          (show_items stage vm r actor connection proxy name state).renderer
          proxy
          (encode_local_ied_state state)
        ≡ true
  unfolding show_items
  show_items-is_applied stage vm r actor connection proxy name state ok =
      rw ok (is_applied-lookup _ proxy _ (remember-accepted stage r proxy _ _))

  pub apply-is_applied :
      (stage : Stage) (r : Renderer) (connection proxy : ℕ) (name : Bytes) (state : LocalIedState)
      (force : Bool)
      → (apply stage r connection proxy name state force).result ≡ true
      → is_applied
          (apply stage r connection proxy name state force).renderer
          proxy
          (encode_local_ied_state state)
        ≡ true
  apply-is_applied stage r connection proxy name state force =
      apply-every
        (λ o. o.result ≡ true → is_applied o.renderer proxy (encode_local_ied_state state) ≡ true)
        stage r connection proxy name state force (λ h. cc)
        (λ same h.
          rw
            (
              schedule_watchdog_tick-signatures stage.has_tasks
                  (rename_proxy r proxy connection name),
              rename_proxy-signatures r proxy connection name,
            )
            (unfold is_applied in same))
        (λ vm actor h. show_items-is_applied stage vm r actor connection proxy name state h)

  again-known :
      (stage : Stage) (r : Renderer) (connection proxy : ℕ) (name : Bytes) (state : LocalIedState)
      → IsReady stage proxy
      → is_applied r proxy (encode_local_ied_state state) ≡ true
      → (apply stage r connection proxy name state false).result ≡ true
        × ((apply stage r connection proxy name state false).calls ≡ [])
        × ((apply stage r connection proxy name state false).renderer.applied_signatures
            ≡ r.applied_signatures)
  unfolding apply
  again-known stage r connection proxy name state ready same =
      rw (apply, ready.has_actor, ready.has_machine, same)
        (
          refl,
          refl,
          schedule_watchdog_tick-signatures stage.has_tasks (rename_proxy r proxy connection name)
              ∙ rename_proxy-signatures r proxy connection name,
        )

  -- Once `Apply` has shown a state on a proxy, with every call accepted, a later `Apply` of the same
  -- state that is not forced, for whatever connection and name and while the proxy can be shown, makes
  -- no script call, gives true and remembers the same signatures.
  pub apply_repeated :
      (stage later : Stage) (r : Renderer) (connection connection2 proxy : ℕ) (name name2 : Bytes)
      (state : LocalIedState) (force : Bool)
      → (apply stage r connection proxy name state force).result ≡ true
      → IsReady later proxy
      → let first = (apply stage r connection proxy name state force).renderer in
        let again = apply later first connection2 proxy name2 state false in
        (again.result ≡ true)
        × (again.calls ≡ [])
        × (again.renderer.applied_signatures ≡ first.applied_signatures)
  apply_repeated stage later r connection connection2 proxy name name2 state force ok ready =
      again-known later (apply stage r connection proxy name state force).renderer connection2 proxy
        name2 state ready (apply-is_applied stage r connection proxy name state force ok)

  apply_refused-signatures :
      (stage : Stage) (r : Renderer) (connection proxy : ℕ) (name : Bytes) (state : LocalIedState)
      (force : Bool)
      → (apply stage r connection proxy name state force).result ≡ false
      → (apply stage r connection proxy name state force).renderer.applied_signatures
        ≡ r.applied_signatures
  unfolding show_items remember
  apply_refused-signatures stage r connection proxy name state force =
      apply-every (λ o. o.result ≡ false → o.renderer.applied_signatures ≡ r.applied_signatures)
        stage r connection proxy name state force (λ h. refl) (λ same h. cc)
        (λ vm actor h. rw h (schedule_watchdog_tick-signatures stage.has_tasks _))

  -- A state that a proxy showed counts as shown also after an `Apply` of any state, forced or not,
  -- that the script engine refused, whichever of its calls it had carried out: `Apply` of the first
  -- state then makes no script call and gives true, while the proxy can be shown.
  pub apply_stale :
      (stage : Stage) (r : Renderer) (connection proxy : ℕ) (name : Bytes)
      (old state : LocalIedState) (force : Bool)
      → is_applied r proxy (encode_local_ied_state old) ≡ true
      → (apply stage r connection proxy name state force).result ≡ false
      → IsReady stage proxy
      → let failed = (apply stage r connection proxy name state force).renderer in
        let again = apply stage failed connection proxy name old false in
        (again.result ≡ true) × (again.calls ≡ [])
  apply_stale stage r connection proxy name old state force known refusal ready =
      let (result, calls, _) =
        again-known stage (apply stage r connection proxy name state force).renderer connection
          proxy name old ready
          (is_applied-signatures _ r proxy _
              (apply_refused-signatures stage r connection proxy name state force refusal)
            ∙ known) in
      (result, calls)
