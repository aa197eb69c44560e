-- ===== src/Renderer/Watchdog/Settled.antt =====
-- What the watchdog of src/RemoteIEDRenderer.cpp leaves behind.
use iedsync_together.Prelude.{
  ℕ, ◌≡◌, refl, true, false, ◌&&◌, List, [], ◌∷◌, some, ◌==◌, Bool-cases, inl, inr, ==_iff,
}
use iedsync_together.Text.{codes}
use iedsync_together.LocalIedState.{Floats, CapturedIedObject}
use iedsync_together.Scene.{Object, Store, write, Arithmetic}
use iedsync_together.Renderer.{TrackedRemoteObject}
use iedsync_together.Renderer.Watchdog.{
  rotation_epsilon, position_epsilon, scale_epsilon, larger, matrix_delta_from, max_matrix_delta,
  max_position_delta, clamp_scale, raw_transform, needs_correction, check_found,
}

module _ ⦃fl : Floats⦄ ⦃fa : Arithmetic⦄ where
  abbrev zero_literal : fl.Float
  zero_literal = fa.literal (codes "0.0")

  -- The tolerances are positive.
  pub record IsTolerant : Type 0 where
    pub rotation_pos : fa.less zero_literal rotation_epsilon ≡ true
    pub position_pos : fa.less zero_literal position_epsilon ≡ true

  larger_below :
      (e a b : fl.Float)
      → fa.less e a ≡ false
      → fa.less e b ≡ false
      → fa.less e (larger a b) ≡ false
  unfolding larger
  larger_below e a b p q = elim (Bool-cases (fa.less a b)) [
    | inl less ↦ rw less q
    | inr other ↦ rw other p
  ]

  matrix_delta_self :
      (e delta : fl.Float) (ms : List fl.Float)
      → fa.less zero_literal e ≡ true
      → fa.less e delta ≡ false
      → fa.less e (matrix_delta_from delta ms ms) ≡ false
  unfolding matrix_delta_from
  matrix_delta_self e delta [] pos h = h
  matrix_delta_self e delta (m ∷ ms) pos h =
      matrix_delta_self e (larger delta (fa.difference m m)) ms pos
        (larger_below e delta (fa.difference m m) h (fa.difference_self m e pos))

  position_delta_self :
      (e : fl.Float) (p : List fl.Float)
      → fa.less zero_literal e ≡ true
      → fa.less e (max_position_delta p p) ≡ false
  unfolding max_position_delta
  position_delta_self e (x ∷ y ∷ z ∷ p) pos =
      larger_below e (larger (fa.difference x x) (fa.difference y y)) (fa.difference z z)
        (larger_below e (fa.difference x x) (fa.difference y y) (fa.difference_self x e pos)
          (fa.difference_self y e pos))
        (fa.difference_self z e pos)
  position_delta_self e _ pos = fa.less_asym zero_literal e pos

  -- A transform that was just written needs a correction exactly if its scale was clamped too far.
  needs_correction-raw_transform :
      IsTolerant
      → (captured : CapturedIedObject)
      → needs_correction (raw_transform captured) captured
        ≡ fa.less scale_epsilon (fa.difference (clamp_scale captured.scale) captured.scale)
  unfolding needs_correction raw_transform max_matrix_delta
  needs_correction-raw_transform t captured = rw (
    matrix_delta_self rotation_epsilon zero_literal captured.rotation_matrix t.rotation_pos
        (fa.less_asym zero_literal rotation_epsilon t.rotation_pos),
    position_delta_self position_epsilon captured.position t.position_pos,
  )

  -- After the watchdog's check of an object that it found, the object is off what was captured only if
  -- it was so before and its captured scale is beyond the bounds of 0.01 and 100 by more than the
  -- tolerance; a check of an object that is not off writes nothing, and no check writes any other object.
  pub check_found_settles :
      IsTolerant
      → (object : Object) (tracked : TrackedRemoteObject) (store : Store)
      → (needs_correction
            ((check_found (some object) tracked store).1 object.address)
            tracked.captured
          ≡ (needs_correction (store object.address) tracked.captured
              && fa.less scale_epsilon
                  (fa.difference (clamp_scale tracked.captured.scale) tracked.captured.scale)))
        × (needs_correction (store object.address) tracked.captured ≡ false
            → (check_found (some object) tracked store).1 ≡ store)
        × ((other : ℕ)
            → (object.address == other) ≡ false
            → (check_found (some object) tracked store).1 other ≡ store other)
  unfolding check_found write
  check_found_settles t object tracked store =
      elim (Bool-cases (needs_correction (store object.address) tracked.captured)) [
        | inl off ↦
            rw
              (
                off,
                (==_iff object.address object.address).1 refl,
                needs_correction-raw_transform t tracked.captured,
              )
              (refl, λ h. cc, λ other h. rw h)
        | inr fits ↦ rw (fits, fits) (refl, λ h. refl, λ other h. refl)
      ]
