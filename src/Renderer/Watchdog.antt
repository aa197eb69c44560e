-- ===== src/Renderer/Watchdog.antt =====
-- `FindRemoteIEDObject`, `MaxMatrixDelta`, `MaxPositionDelta`, `ApplyRawTransform` and `WatchdogTick`
-- of src/RemoteIEDRenderer.cpp. What the engine derives from a local transform is left out.
pub mod Settled
use iedsync_together.Prelude.{
  ℕ, ◌+◌, ◌-◌, ◌%◌, ◌^◌, ◌≡◌, Bool, true, false, ◌&&◌, ◌||◌, List, [], ◌∷◌, Option, none, some,
  ◌==◌, if◌then◌else◌, ◌>>=◌,
}
use iedsync_together.Text.{Bytes, codes, equal}
use iedsync_together.Engine.{Actor}
use iedsync_together.LocalIedState.{Floats, CapturedIedObject}
use iedsync_together.Scene.{
  Object, Tree, tree, Children, leaf, null_child, child, or_empty, parse_ied_object_form_id,
  Transform, Store, write, Arithmetic,
}
use iedsync_together.Renderer.{Renderer, TrackedRemoteObject, TrackedProxyState}
use iedsync_together.Renderer.Apply.{Stage, proxy_actor}

-- The form in the object's name and the name of its parent are those that are looked for.
unfoldable pub is_remote : Object → ℕ → Bytes → Bool
is_remote object form_id expected = elim (parse_ied_object_form_id (or_empty object.name)) [
  | none ↦ false
  | some found ↦ found == form_id && equal (or_empty object.parent_name) expected
]

unfoldable mutual
  pub find_remote_ied_object : Tree → ℕ → Bytes → Option Object
  find_remote_ied_object (tree object children) form_id expected =
      elim (is_remote object form_id expected) [
        | true ↦ some object
        | false ↦ find_remote_child children form_id expected
      ]

  pub find_remote_child : Children → ℕ → Bytes → Option Object
  find_remote_child leaf form_id expected = none
  find_remote_child (null_child more) form_id expected = find_remote_child more form_id expected
  find_remote_child (child t more) form_id expected =
      elim (find_remote_ied_object t form_id expected) [
        | some found ↦ some found
        | none ↦ find_remote_child more form_id expected
      ]

module _ ⦃fl : Floats⦄ ⦃fa : Arithmetic⦄ where
  -- `kRotationEpsilon`, `kPositionEpsilon` and `kScaleEpsilon`.
  abbrev pub rotation_epsilon : fl.Float
  rotation_epsilon = fa.literal (codes "1.0e-4")

  abbrev pub position_epsilon : fl.Float
  position_epsilon = fa.literal (codes "1.0e-3")

  abbrev pub scale_epsilon : fl.Float
  scale_epsilon = fa.literal (codes "1.0e-4")

  -- `std::max(a, b)`.
  unfoldable pub larger : fl.Float → fl.Float → fl.Float
  larger a b = if fa.less a b then b else a

  -- The loop over the entries, with the largest difference so far.
  unfoldable pub matrix_delta_from : fl.Float → List fl.Float → List fl.Float → fl.Float
  unfolding larger
  matrix_delta_from delta (m ∷ ms) (e ∷ es) =
      matrix_delta_from (larger delta (fa.difference m e)) ms es
  matrix_delta_from delta _ _ = delta

  unfoldable pub max_matrix_delta : List fl.Float → List fl.Float → fl.Float
  unfolding matrix_delta_from
  max_matrix_delta matrix expected = matrix_delta_from (fa.literal (codes "0.0")) matrix expected

  -- `std::max` of three differences; the arrays have three entries.
  unfoldable pub max_position_delta : List fl.Float → List fl.Float → fl.Float
  unfolding larger
  max_position_delta (x ∷ y ∷ z ∷ _) (a ∷ b ∷ c ∷ _) =
      larger (larger (fa.difference x a) (fa.difference y b)) (fa.difference z c)
  max_position_delta _ _ = fa.literal (codes "0.0")

  -- `std::clamp(scale, 0.01f, 100.0f)`.
  unfoldable pub clamp_scale : fl.Float → fl.Float
  clamp_scale scale =
      let low = fa.literal (codes "0.01") in
      let high = fa.literal (codes "100.0") in
      if fa.less scale low then low else if fa.less high scale then high else scale

  -- The local transform that `ApplyRawTransform` writes.
  unfoldable pub raw_transform : CapturedIedObject → Transform
  unfolding clamp_scale
  raw_transform captured = record {
    rotate = captured.rotation_matrix;
    translate = captured.position;
    size = clamp_scale captured.scale;
  }

  unfoldable pub needs_correction : Transform → CapturedIedObject → Bool
  unfolding max_matrix_delta max_position_delta
  needs_correction local captured =
      fa.less rotation_epsilon (max_matrix_delta local.rotate captured.rotation_matrix)
      || fa.less position_epsilon (max_position_delta local.translate captured.position)
      || fa.less scale_epsilon (fa.difference local.size captured.scale)

  -- One round of the loop over the tracked objects: the object that was found, if one was.
  unfoldable pub check_found :
      Option Object → TrackedRemoteObject → Store → TrackedRemoteObject × Store
  unfolding needs_correction raw_transform
  check_found none tracked store = (tracked, store)
  check_found (some object) tracked store =
      if needs_correction (store object.address) tracked.captured
      then (
        record tracked { acquired = true; corrections = (tracked.corrections + 1) % 2 ^ 32 },
        write store object.address (raw_transform tracked.captured),
      )
      else (record tracked { acquired = true }, store)

  abbrev pub found_in : Tree → TrackedRemoteObject → Option Object
  found_in root tracked =
      find_remote_ied_object root tracked.remote_form_id tracked.expected_attachment

  unfoldable pub check_objects :
      Tree → List TrackedRemoteObject → Store → List TrackedRemoteObject × Store
  unfolding check_found
  check_objects root [] store = ([], store)
  check_objects root (tracked ∷ more) store =
      let (checked, store1) = check_found (found_in root tracked) tracked store in
      let (rest, store2) = check_objects root more store1 in (checked ∷ rest, store2)

  -- The actor's tree, as `Get3D1` gives it.
  module _ (stage : Stage) (get_3d : Actor → Option Tree) where
    unfoldable pub proxy_root : ℕ → Option Tree
    proxy_root proxy = proxy_actor stage proxy >>= get_3d

    unfoldable pub check_proxies :
        List (ℕ × TrackedProxyState) → Store → List (ℕ × TrackedProxyState) × Store
    unfolding proxy_root check_objects
    check_proxies [] store = ([], store)
    check_proxies ((proxy, state) ∷ more) store = elim (proxy_root proxy) [
      | none ↦ let (rest, store2) = check_proxies more store in ((proxy, state) ∷ rest, store2)
      | some root ↦
          let (objects, store1) = check_objects root state.objects store in
          let (rest, store2) = check_proxies more store1 in
          ((proxy, record state { objects = objects }) ∷ rest, store2)
    ]

    unfoldable pub watchdog_tick : Renderer → Store → Renderer × Store
    unfolding check_proxies
    watchdog_tick r store =
        let (proxies, store1) = check_proxies r.tracked_proxies store in
        (record r { tracked_proxies = proxies }, store1)

    -- The task that `ScheduleWatchdogTick` puts into the queue.
    unfoldable pub run_tick : Renderer → Store → Renderer × Store
    unfolding watchdog_tick
    run_tick r store =
        watchdog_tick (record r { watchdog_task_queued = false; queued_ticks = r.queued_ticks - 1 })
          store
