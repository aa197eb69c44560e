-- ===== src/Strpm.antt =====
-- src/STRPMAdapter.h and src/STRPMAdapter.cpp: the adapter to the plugin message service; here its
-- outgoing half, which keeps the latest payload until the service has taken it. `TrySend` calls the
-- service between two locked sections, so a send is two steps, its begin and its end, and other
-- calls may come in between. The displays that go with a payload are only logged. Times are
-- milliseconds.
pub mod Delivered
pub mod Loading
pub mod Incoming
use iedsync_together.Prelude.{
  ℕ, ◌-◌, ◌≡◌, refl, Bool, true, false, not, ◌&&◌, ◌||◌, List, [], ◌∷◌, Option, none, some, leb,
  ltb, if◌then◌else◌, length,
}
use iedsync_together.Text.{Bytes, equal, is_empty}

-- `STRPM::kMaxPayloadBytes`.
abbrev pub max_payload_bytes : ℕ
max_payload_bytes = 24576

abbrev pub heartbeat_interval : ℕ
heartbeat_interval = 10000

-- The members that the outgoing half reads and writes; whether `_api` and its `send` are there.
pub record Adapter : Type 0 where
  pub running : Bool
  pub has_send : Bool
  pub latest_payload : Bytes
  pub pending : Bool
  pub have_successful_send : Bool
  pub last_failure : Option ℕ
  pub last_successful_send : ℕ

-- The guards of `TrySend`: the payload with which `send` is called, if it is. What it reads again before
-- that call is in Loading.
unfoldable pub begin_send : Adapter → Bytes → Option Bytes
begin_send a payload =
    if not a.running || not a.has_send || is_empty payload || ltb max_payload_bytes (length payload)
    then none
    else some payload

-- The section behind the call of `send`. The result is `none` for `kOk`, or the failure.
unfoldable pub end_send : Adapter → ℕ → Bytes → Option ℕ → Adapter
end_send a now payload (some failure) = record a {
  pending = a.pending || equal a.latest_payload payload;
  last_failure = some failure;
}
end_send a now payload none = record a {
  pending = a.pending && not (equal a.latest_payload payload);
  last_failure = none;
  have_successful_send = true;
  last_successful_send = now;
}

-- `Publish`: the adapter, and the send that begins.
unfoldable pub publish : Adapter → Bytes → Adapter × Option Bytes
publish a payload =
    if is_empty payload || ltb max_payload_bytes (length payload)
    then (a, none)
    else let a' = record a { latest_payload = payload; pending = true } in
      (a', begin_send a' payload)

-- `RetryTick`.
unfoldable pub retry_tick : Adapter → ℕ → Option Bytes
retry_tick a now =
    if not a.running || is_empty a.latest_payload
    then none
    else if a.pending
        || (a.have_successful_send && leb heartbeat_interval (now - a.last_successful_send))
    then begin_send a a.latest_payload
    else none

-- What `Reset` and `Stop` do to these members.
unfoldable pub clear_state : Adapter → Adapter
clear_state a = record a {
  latest_payload = [];
  pending = false;
  have_successful_send = false;
  last_failure = none;
  last_successful_send = 0;
}

unfoldable pub stop_adapter : Adapter → Adapter
stop_adapter a =
    if not a.running then a else record (clear_state a) { running = false; has_send = false }
