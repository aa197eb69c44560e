-- ===== src/Tests/Messages.antt =====
-- The adapter of the plugin messages at concrete inputs.
use iedsync_together.Prelude.{inl, inr, refl, true, false, [], ◌∷◌, none, some}
use iedsync_together.Text.{codes, equal}
use iedsync_together.Dict.{member, bytes_eq}
use iedsync_together.Strpm.{Adapter, end_send}
use iedsync_together.Strpm.Delivered.{Line, fails, Reaches, start, next, IsKept, Reaches-IsKept}

abbrev waiting : Adapter
waiting = record {
  running = true;
  has_send = true;
  latest_payload = codes "A";
  pending = true;
  have_successful_send = false;
  last_failure = none;
  last_successful_send = 0;
}

abbrev sending : Line
sending = record { adapter = waiting; in_flight = codes "A" ∷ []; taken = [] }

abbrev failed : Line
failed = record sending { adapter = end_send waiting 5 (codes "A") (some 3) }

fails_once : Reaches sending failed
fails_once = next (start sending) (fails sending 5 3 (codes "A") (unfold member equal in refl))

Reaches-IsKept_example : IsKept failed
Reaches-IsKept_example = Reaches-IsKept fails_once (inr (inl refl))
