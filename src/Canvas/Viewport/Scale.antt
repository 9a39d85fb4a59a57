-- ===== src/Canvas/Viewport/Scale.antt =====
-- The bounds of the scale.
use adivento.Base.Texts.{Text}
use adivento.Base.{
  ℕ, Bool, true, false, Option, none, some, List, [], ◌∷◌, if◌then◌else◌, ◌≡◌, refl, arith, ◌⊎◌,
  inl, inr, Bool-cases, subst, sym, not, ◌&&◌, ◌∙◌,
}
use adivento.Number.{Number, Le, IsIeee}
use adivento.Canvas.Viewport.{
  MathOf, Json, read_saved, Transform, Pan, View, Rect, Wheel, apply, clamp_scale, cancel_drift,
  zoom_at, is_mouse_wheel, on_wheel, pan, release, Event, announce, save, handle, run, initial,
  restore, mount, scale_to, move_to, scroll, wheel, gesture_start, gesture_change, gesture_end,
  pointer_down, pointer_move, pointer_up, set_zoom, probe, save_timer, pagehide,
}

module _ (N : Number) (ieee : IsIeee N) (maths : MathOf N) (json : Json N)
    (min_scale max_scale : N.Num) where
  open N use {Num, of, le, is_nan}

  -- Within the bounds, or not a number.
  abbrev pub InBounds : Num → Type 0
  InBounds s = (is_nan s ≡ true) ⊎ (Le N min_scale s × Le N s max_scale)

  module _ (ordered : Le N min_scale max_scale) where
    clamp_scale-InBounds : (s : Num) → InBounds (clamp_scale N maths json min_scale max_scale s)
    unfolding clamp_scale
    clamp_scale-InBounds s =
        let (lo, hi) = ieee.not_nan min_scale max_scale ordered in
        elim (Bool-cases (is_nan s)) [
          | inl e ↦ ground (arith, ieee.not_nan s min_scale, ieee.not_nan max_scale s)
          | inr e ↦ ground (
            arith,
            ieee.le_total s min_scale e lo,
            ieee.le_total s max_scale e hi,
            ieee.le_refl min_scale lo,
            ieee.le_refl max_scale hi,
          )
        ]

    apply-scale : (v : View N) → (apply N maths json min_scale max_scale v).tf.scale ≡ v.tf.scale
    unfolding apply
    apply-scale v = ground arith

    if-InBounds :
        (b : Bool) (v w : View N)
        → InBounds v.tf.scale
        → InBounds w.tf.scale
        → InBounds (if b then v else w).tf.scale
    if-InBounds true v w hv hw = hv
    if-InBounds false v w hv hw = hw

    cancel_drift-scale :
        (drift : Option Num) (v : View N)
        → (cancel_drift N maths json min_scale max_scale drift v).tf.scale ≡ v.tf.scale
    unfolding cancel_drift apply
    cancel_drift-scale none v = refl
    cancel_drift-scale (some d) v = ground arith

    -- The view that `zoomAt` applies.
    abbrev zoomed : Rect N → Num → Num → Num → View N → View N
    zoomed r cx cy factor v =
        let next = clamp_scale N maths json min_scale max_scale (N.mul v.tf.scale factor) in
        scale_to N maths json min_scale max_scale (N.sub cx r.left) (N.sub cy r.top) next
          (N.div next v.tf.scale) v

    zoom_at-InBounds :
        (r : Rect N) (drift : Option Num) (cx cy factor : Num) (v : View N)
        → InBounds (zoom_at N maths json min_scale max_scale r drift cx cy factor v).tf.scale
    unfolding zoom_at scale_to
    zoom_at-InBounds r drift cx cy factor v =
        let e : (zoom_at N maths json min_scale max_scale r drift cx cy factor v).tf.scale
            ≡ clamp_scale N maths json min_scale max_scale (N.mul v.tf.scale factor) =
          cancel_drift-scale _ (apply N maths json min_scale max_scale (zoomed r cx cy factor v))
          ∙ apply-scale (zoomed r cx cy factor v) in
        subst InBounds (sym e) (clamp_scale-InBounds (N.mul v.tf.scale factor))

    on_wheel-InBounds :
        (r : Rect N) (drift : Option Num) (e : Wheel N) (v : View N)
        → InBounds v.tf.scale
        → InBounds (on_wheel N maths json min_scale max_scale r drift e v).tf.scale
    unfolding on_wheel scroll
    on_wheel-InBounds r drift e v h = if-InBounds v.is_gesturing v _ h (
        if-InBounds (e.ctrl_or_meta && not (is_mouse_wheel N maths json min_scale max_scale e)) _ _
          (zoom_at-InBounds r drift e.client_x e.client_y _ v)
          (if-InBounds (is_mouse_wheel N maths json min_scale max_scale e) _ _
            (zoom_at-InBounds r drift e.client_x e.client_y _ v)
            (subst InBounds (sym (apply-scale (scroll N maths json min_scale max_scale e v))) h)))

    pan-scale :
        (d : Option (Pan N)) (id : ℕ) (cx cy : Num) (v : View N)
        → (pan N maths json min_scale max_scale d id cx cy v).tf.scale ≡ v.tf.scale
    unfolding pan apply
    pan-scale none id cx cy v = refl
    pan-scale (some d) id cx cy v = ground arith

    release-scale :
        (d : Option (Pan N)) (id : ℕ) (v : View N)
        → (release N maths json min_scale max_scale d id v).tf.scale ≡ v.tf.scale
    unfolding release
    release-scale none id v = refl
    release-scale (some d) id v = ground arith

    handle-InBounds :
        (e : Event N maths json min_scale max_scale) (v : View N)
        → InBounds v.tf.scale
        → InBounds (handle N maths json min_scale max_scale e v).tf.scale
    unfolding handle announce apply save
    handle-InBounds (wheel r drift e) v h = on_wheel-InBounds r drift e v h
    handle-InBounds gesture_start v h = h
    handle-InBounds (gesture_change r drift cx cy s) v h = zoom_at-InBounds r drift cx cy _ v
    handle-InBounds gesture_end v h = h
    handle-InBounds (pointer_down button on_bg id cx cy) v h = ground arith
    handle-InBounds (pointer_move id cx cy) v h = rw (pan-scale v.drag id cx cy v) h
    handle-InBounds (pointer_up id) v h = rw (release-scale v.drag id v) h
    handle-InBounds (set_zoom r drift s) v h = zoom_at-InBounds r drift _ _ _ v
    handle-InBounds probe v h = ground arith
    handle-InBounds (save_timer accepts) v h = ground arith
    handle-InBounds (pagehide accepts) v h = h

    run-InBounds :
        (es : List (Event N maths json min_scale max_scale)) (v : View N)
        → InBounds v.tf.scale
        → InBounds (run N maths json min_scale max_scale es v).tf.scale
    unfolding run
    run-InBounds [] v h = h
    run-InBounds (e ∷ es) v h =
        run-InBounds es (handle N maths json min_scale max_scale e v) (handle-InBounds e v h)

    restore-InBounds :
        (saved : Option (Transform N)) (v : View N)
        → InBounds v.tf.scale
        → InBounds (restore N maths json min_scale max_scale saved v).tf.scale
    unfolding restore move_to
    restore-InBounds none v h = h
    restore-InBounds (some s) v h =
        if-InBounds (maths.is_finite s.x && maths.is_finite s.y && maths.is_finite s.scale) _ v
          (subst InBounds (sym (apply-scale (move_to N maths json min_scale max_scale s v)))
            (clamp_scale-InBounds s.scale))
          h

  -- If the bounds are in order and 1 is within them, then in every session, whatever text was
  -- saved, the scale stays within the bounds, unless it is not a number.
  pub run-mount-InBounds :
      (saved : Option Text) (es : List (Event N maths json min_scale max_scale))
      → Le N min_scale (of 1)
      → Le N (of 1) max_scale
      → InBounds
          (run N maths json min_scale max_scale es
            (mount N maths json min_scale max_scale saved)).tf.scale
  unfolding mount initial handle
  run-mount-InBounds saved es lo hi =
      let ordered = ieee.le_trans min_scale (of 1) max_scale lo hi in
      run-InBounds ordered es (mount N maths json min_scale max_scale saved) (
        handle-InBounds ordered probe
          (restore N maths json min_scale max_scale
            (read_saved N maths json min_scale max_scale saved)
            (initial N maths json min_scale max_scale saved))
          (restore-InBounds ordered (read_saved N maths json min_scale max_scale saved)
            (initial N maths json min_scale max_scale saved) (inr (lo, hi))))
