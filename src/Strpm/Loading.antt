-- ===== src/Strpm/Loading.antt =====
-- `LoadApi`, `Start`, `Stop` and the whole of the sends of src/STRPMAdapter.cpp, and the members that its
-- incoming half uses.
-- The library of the message service is a parameter: what loading it and its functions give.
use iedsync_together.Prelude.{
  ℕ, Bool, true, false, not, ◌&&◌, ◌||◌, List, [], Option, none, some, ◌==◌, if◌then◌else◌, ◌>>=◌,
}
use iedsync_together.Text.{Bytes}
use iedsync_together.LocalIedState.{Floats, LocalIedState}
use iedsync_together.Strpm.{Adapter, stop_adapter, begin_send, publish, retry_tick}

-- `kInterfaceVersion` and `kProxyResolverVersion`.
abbrev pub interface_version : ℕ
interface_version = 2

abbrev pub proxy_resolver_version : ℕ
proxy_resolver_version = 1

-- `STRPM::ProxyResolverInterface`: whether `resolve` and `registerListener` are there, and whether
-- `registerListener` gives `kOk`.
pub record Resolver : Type 0 where
  pub version : ℕ
  pub has_resolve : Bool
  pub has_register : Bool
  pub registers : Bool

-- `STRPM::Interface`: whether `send` is there; `getLocalConnectionID`, if it is there, with the id
-- that it gives if it gives `kOk`; and the handle of `registerChannel` if that gives `kOk`.
pub record Api : Type 0 where
  pub version : ℕ
  pub has_send : Bool
  pub local_id : Option (Option ℕ)
  pub registered : Option ℕ

-- The three attempts to load the library; and its two queries, if they are exported, with what they
-- give if they give `kOk`, which may be null.
pub record Library : Type 0 where
  pub is_loaded : Bool
  pub query : Option (Option Api)
  pub resolver_query : Option (Option Resolver)

-- `_api` and `_resolver` afterwards. `none` is the result `false`.
unfoldable pub load_resolver : Library → Option Resolver
load_resolver library = library.resolver_query >>= λ given. given >>= λ resolver.
    if not (resolver.version == proxy_resolver_version) || not resolver.has_resolve
    then none
    else some resolver

unfoldable pub load_api : Library → Option (Api × Option Resolver)
unfolding load_resolver
load_api library =
    if not library.is_loaded
    then none
    else (library.query >>= λ given. given >>= λ api.
        if not (api.version == interface_version) then none else some (api, load_resolver library))

-- The id that the service gives, if it gives one.
unfoldable pub read_local_id : Api → ℕ → ℕ
read_local_id api old = elim api.local_id [ none ↦ old | some none ↦ old | some (some id) ↦ id ]

-- What a send asks for: `getLocalConnectionID`, as in `Api`, whether `setLocalDisplayName` is there, and
-- the name of the player.
pub record SendHost : Type 0 where
  pub local_id : Option (Option ℕ)
  pub has_set_name : Bool
  pub player_name : Bytes

-- The calls of a send: `setLocalDisplayName`, if it is there, and `send`.
pub record Send : Type 0 where
  pub display_name : Option Bytes
  pub payload : Bytes

abbrev pub refreshed_id : Option (Option ℕ) → ℕ → ℕ
refreshed_id none old = old
refreshed_id (some none) old = old
refreshed_id (some (some id)) old = if id == 0 then old else id

module _ ⦃fl : Floats⦄ where
  pub record RemoteSnapshot : Type 0 where
    pub state : LocalIedState
    pub display_name : Bytes
    pub sequence : ℕ

  -- The members of the class, with those of the outgoing half; `_running` and `_api` stand there.
  pub record FullAdapter : Type 0 where
    pub outgoing : Adapter
    pub resolver : Option Resolver
    pub listener_registered : Bool
    pub listener : ℕ
    pub local_connection_id : ℕ
    pub remote_states : List (ℕ × RemoteSnapshot)

  abbrev pub is_running : FullAdapter → Bool
  is_running e = e.outgoing.running

  -- `TrySend` up to the call of `send`: past its guards the id is read again, where the service gives one
  -- that is not zero, and the display name is announced. The payload is what `send` is called with.
  unfoldable pub begin_try_send : SendHost → FullAdapter → Option Bytes → FullAdapter × Option Send
  begin_try_send host e none = (e, none)
  begin_try_send host e (some payload) = (
    record e { local_connection_id = refreshed_id host.local_id e.local_connection_id },
    some (record {
      display_name = if host.has_set_name then some host.player_name else none;
      payload = payload;
    }),
  )

  -- `TrySend`, `Publish` and `RetryTick` on all members.
  unfoldable pub try_send : SendHost → FullAdapter → Bytes → FullAdapter × Option Send
  unfolding begin_try_send
  try_send host e payload = begin_try_send host e (begin_send e.outgoing payload)

  unfoldable pub publish_endpoint : SendHost → FullAdapter → Bytes → FullAdapter × Option Send
  unfolding begin_try_send
  publish_endpoint host e payload =
      let (outgoing, begun) = publish e.outgoing payload in
      begin_try_send host (record e { outgoing = outgoing }) begun

  unfoldable pub retry_endpoint : SendHost → FullAdapter → ℕ → FullAdapter × Option Send
  unfolding begin_try_send
  retry_endpoint host e now = begin_try_send host e (retry_tick e.outgoing now)

  abbrev pub listens : Option Resolver → Bool → Bool
  listens none registered = registered
  listens (some resolver) registered = (resolver.has_register && resolver.registers) || registered

  -- `Start`, behind `LoadApi`.
  unfoldable pub register_channel : Api → Option Resolver → FullAdapter → FullAdapter × Bool
  unfolding read_local_id
  register_channel api loaded e = elim api.registered [
    | none ↦ (
      record e {
        outgoing = record e.outgoing { has_send = false };
        resolver = none;
        listener = 0;
        local_connection_id = read_local_id api e.local_connection_id;
      },
      false,
    )
    | some handle ↦ (
      record e {
        outgoing = record e.outgoing { running = true; has_send = api.has_send };
        resolver = loaded;
        listener_registered = listens loaded e.listener_registered;
        listener = handle;
        local_connection_id = read_local_id api e.local_connection_id;
      },
      true,
    )
  ]

  abbrev pub newer : Option Resolver → Option Resolver → Option Resolver
  newer none old = old
  newer (some resolver) old = some resolver

  unfoldable pub start_adapter : Library → FullAdapter → FullAdapter × Bool
  unfolding register_channel
  start_adapter library e = if is_running e then (e, true) else elim (load_api library) [
    | none ↦ (e, false)
    | some (api, loaded) ↦ register_channel api (newer loaded e.resolver) e
  ]

  -- `Stop`.
  unfoldable pub stop_endpoint : FullAdapter → FullAdapter
  stop_endpoint e = if not (is_running e) then e else record e {
    outgoing = stop_adapter e.outgoing;
    listener_registered = false;
    remote_states = [];
    listener = 0;
    local_connection_id = 0;
    resolver = none;
  }
