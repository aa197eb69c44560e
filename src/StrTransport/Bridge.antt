-- ===== src/StrTransport/Bridge.antt =====
-- What `Start` of src/StrTransport.cpp comes to.
use iedsync_together.Prelude.{
  ◌≡◌, ◌≢◌, refl, sym, Bool, true, false, not, ◌||◌, Option, none, some, if◌then◌else◌, arith,
  Option-cases, if-every, inl, inr, is_some,
}
use iedsync_together.Text.Number.{Fmt}
use iedsync_together.Config.{Config}
use iedsync_together.Strpm.Loading.{Api}
use iedsync_together.StrTransport.{
  RuntimeStatus, is_str_bridge, Diagnostics, StrTransport, Host, load_str_api, read_runtime_status,
  validate_runtime_backend, join_channel, start_str, stopped_str, stop_str,
}

-- The diagnostics say that the bridge to the server is the backend, and active.
pub record IsBridged (diagnostics : Option Diagnostics) : Type 0 where
  pub status : RuntimeStatus
  pub is_read : read_runtime_status diagnostics ≡ some status
  pub bridged : is_str_bridge status.active_backend ≡ true
  pub active : status.str_bridge_active ≢ 0

-- A transport that runs has its service, its handler and, if the settings ask for it, the bridge;
-- one that does not has neither service nor handler.
pub record IsStrTransport (t : StrTransport) : Type 0 where
  pub with_api : t.running ≡ is_some t.api
  pub with_handler : t.running ≡ t.has_handler
  pub with_bridge : t.running ≡ true → t.config.require_str_bridge ≡ true → IsBridged t.diagnostics

validate_runtime_backend-IsBridged :
    (config : Config) (diagnostics : Option Diagnostics)
    → validate_runtime_backend config diagnostics ≡ true
    → config.require_str_bridge ≡ true
    → IsBridged diagnostics
unfolding validate_runtime_backend
validate_runtime_backend-IsBridged config diagnostics valid required =
    elim (Option-cases (read_runtime_status diagnostics)) [
      | inl unknown ↦ cc (rw (validate_runtime_backend, unknown, required) at valid)
      | inr (status, known) ↦
          let shown = (rw (validate_runtime_backend, known, required) at valid) in
          record {
            status = status;
            is_read = known;
            bridged = ground (arith, shown);
            active = λ e. ground (arith, shown, e);
          }
    ]

abbrev IsStarted : StrTransport × Bool → Type 0
IsStarted (t, result) = IsStrTransport t × (result ≡ t.running)

module _ ⦃f : Fmt⦄ where
  join-IsStrTransport :
      (host : Host) (t : StrTransport) (api : Api) (diagnostics : Option Diagnostics)
      → t.running ≡ false
      → t.has_handler ≡ true
      → (t.config.require_str_bridge ≡ true → IsBridged diagnostics)
      → IsStrTransport (join_channel host t api diagnostics).0
        × ((join_channel host t api diagnostics).1
            ≡ (join_channel host t api diagnostics).0.running)
  unfolding join_channel
  join-IsStrTransport host t api diagnostics stopped handler bridge =
      elim (Option-cases api.registered) [
        | inl refused ↦
            rw (join_channel, refused)
              (
                record { with_api = stopped; with_handler = stopped; with_bridge = λ runs. cc },
                sym stopped,
              )
        | inr (handle, granted) ↦
            rw (join_channel, granted)
              (
                record {
                  with_api = refl;
                  with_handler = sym handler;
                  with_bridge = λ runs required. bridge required;
                },
                refl,
              )
      ]

  -- `Start` keeps a transport well-formed and gives true exactly if it runs then: a running transport
  -- has its service and its handler, and where the settings ask for the bridge to the server the
  -- diagnostics have said that it is active; after a failure there is neither service nor handler.
  pub start_str-IsStrTransport :
      (host : Host) (t : StrTransport) (config : Config) (has_handler : Bool)
      → IsStrTransport t
      → IsStrTransport (start_str host t config has_handler).0
        × ((start_str host t config has_handler).1
            ≡ (start_str host t config has_handler).0.running)
  unfolding start_str
  start_str-IsStrTransport host t config has_handler v =
      if-every IsStarted t.running _ _ (λ running. (v, sym running))
        (λ stopped.
          if-every IsStarted (not config.network_enabled || not has_handler) _ _
            (λ off. (v, sym stopped)) (λ on. loads stopped (load_str_api host)))
    where
      loads :
          t.running ≡ false
          → (loaded : Option (Api × Option Diagnostics))
          → IsStarted (elim loaded [
            | none ↦ (record t { config = config; has_handler = false }, false)
            | some (api, diagnostics) ↦
                if not (validate_runtime_backend config diagnostics)
                then (
                  record t { config = config; has_handler = false; api = none; diagnostics = none },
                  false,
                )
                else join_channel host
                    (record t { config = config; has_handler = true })
                    api
                    diagnostics
          ])
      loads stopped none = (
        record {
          with_api = v.with_api;
          with_handler = stopped;
          with_bridge = λ runs required. absurd (cc);
        },
        sym stopped,
      )
      loads stopped (some (api, diagnostics)) =
          if-every IsStarted (not (validate_runtime_backend config diagnostics)) _ _
            (λ invalid. (
              record {
                with_api = stopped;
                with_handler = stopped;
                with_bridge = λ runs required. absurd (cc);
              },
              sym stopped,
            ))
            (λ valid.
              join-IsStrTransport host (record t { config = config; has_handler = true }) api
                diagnostics stopped refl
                (λ required.
                  validate_runtime_backend-IsBridged config diagnostics (ground (arith, valid))
                    required))

never : false ≡ true → ⊥
never e = cc

-- `Stop` leaves a well-formed transport, which does not run and which has no service and no handler.
stop_str-IsStrTransport : (t : StrTransport) → IsStrTransport t → IsStrTransport (stop_str t)
unfolding stop_str
stop_str-IsStrTransport t v =
    if-every IsStrTransport (not t.running) t (stopped_str t) (λ stopped. v)
      (λ running. record {
        with_api = refl;
        with_handler = refl;
        with_bridge = λ runs required. absurd (never runs);
      })
