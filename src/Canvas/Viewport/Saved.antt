-- ===== src/Canvas/Viewport/Saved.antt =====
-- The viewport across a reload of the page.
use adivento.Base.Texts.{Text}
use adivento.Base.{true, false, Option, some, List, ◌≡◌, arith, inl, inr, sym, ◌∙◌, subst}
use adivento.Number.{Number, Le, IsIeee}
use adivento.Canvas.Viewport.{
  MathOf, Json, read_saved, Transform, View, apply, clamp_scale, Event, announce, handle, run,
  initial, restore, mount, move_to, pagehide, save,
}
use adivento.Canvas.Viewport.Scale.{run-mount-InBounds}

module _ (N : Number) (ieee : IsIeee N) (maths : MathOf N) (json : Json N)
    (min_scale max_scale : N.Num) where
  open N use {Num, of, le, is_nan}

  clamp_scale-same :
      (s : Num)
      → Le N min_scale s
      → Le N s max_scale
      → Le N (clamp_scale N maths json min_scale max_scale s) s
        × Le N s (clamp_scale N maths json min_scale max_scale s)
  unfolding clamp_scale
  clamp_scale-same s lo hi =
      ground
        (arith, ieee.le_refl s (ieee.not_nan min_scale s lo).1, ieee.le_trans max_scale min_scale s)

  apply-tf : (v : View N) → (apply N maths json min_scale max_scale v).tf ≡ v.tf
  unfolding apply
  apply-tf v = ground arith

  announce-tf : (v : View N) → (announce N maths json min_scale max_scale v).tf ≡ v.tf
  unfolding announce apply
  announce-tf v = ground arith

  -- The view after a session on a page where `saved` was kept.
  abbrev pub session : Option Text → List (Event N maths json min_scale max_scale) → View N
  session saved es =
      run N maths json min_scale max_scale es (mount N maths json min_scale max_scale saved)

  abbrev pub IsFinite : Transform N → Type 0
  IsFinite s =
      (maths.is_finite s.x ≡ true)
      × (maths.is_finite s.y ≡ true)
      × (maths.is_finite s.scale ≡ true)
      × (is_nan s.scale ≡ false)

  -- Neither less nor greater: zero and minus zero, which has the text of zero, are the same.
  abbrev pub Same : Num → Num → Type 0
  Same a b = Le N a b × Le N b a

  -- JSON gives back the numbers of a transform whose numbers are finite.
  abbrev pub IsJson : Type 0
  IsJson =
      (s : Transform N)
      → IsFinite s
      → (t : Transform N) × (read_saved N maths json min_scale max_scale (some (json.stringify s))
          ≡ some t)
        × IsFinite t
        × Same t.x s.x
        × Same t.y s.y
        × Same t.scale s.scale

  -- The transform that a mount restores.
  mount-tf :
      (saved : Option Text) (s : Transform N)
      → read_saved N maths json min_scale max_scale saved ≡ some s
      → IsFinite s
      → (mount N maths json min_scale max_scale saved).tf
        ≡ (move_to N maths json min_scale max_scale s
            (initial N maths json min_scale max_scale saved)).tf
  unfolding mount restore
  mount-tf saved s e (hx, hy, hs, n) =
      announce-tf (
        restore N maths json min_scale max_scale (read_saved N maths json min_scale max_scale saved)
          (initial N maths json min_scale max_scale saved))
      ∙ rw (e, hx, hy, hs)
          (apply-tf (
            move_to N maths json min_scale max_scale s
              (initial N maths json min_scale max_scale saved)))

  Same-trans : (a b c : Num) → Same a b → Same b c → Same a c
  Same-trans a b c h k = (ieee.le_trans a b c h.0 k.0, ieee.le_trans c b a k.1 h.1)

  -- With the bounds in order and 1 within them, and if JSON gives back the numbers of a transform:
  -- when the page is hidden after any session, whether the storage accepted the writes in it or not,
  -- and the storage then accepts the transform, which consists of finite numbers, then the next mount
  -- starts at the same position and the same scale.
  pub mount-pagehide :
      (saved : Option Text) (es : List (Event N maths json min_scale max_scale))
      → IsJson
      → Le N min_scale (of 1)
      → Le N (of 1) max_scale
      → IsFinite (session saved es).tf
      → Same
          (mount N maths json min_scale max_scale
            (handle N maths json min_scale max_scale (pagehide true) (session saved es)).saved).tf.x
          (session saved es).tf.x
        × Same
            (mount N maths json min_scale max_scale
              (handle N maths json min_scale max_scale
                (pagehide true)
                (session saved es)).saved).tf.y
            (session saved es).tf.y
        × Same
            (mount N maths json min_scale max_scale
              (handle N maths json min_scale max_scale
                (pagehide true)
                (session saved es)).saved).tf.scale
            (session saved es).tf.scale
  unfolding handle save move_to
  mount-pagehide saved es back lo hi f =
      let s = (session saved es).tf in
      let (t, read, fin, x, y, z) = back s f in
      let e = mount-tf (some (json.stringify s)) t read fin in
      let (low, high) : Le N min_scale s.scale × Le N s.scale max_scale =
        elim (run-mount-InBounds N ieee maths json min_scale max_scale saved es lo hi) [
          | inl n ↦ absurd (ground (arith, f.3))
          | inr h ↦ h
        ] in
      let c =
        clamp_scale-same t.scale (ieee.le_trans min_scale s.scale t.scale low z.1)
          (ieee.le_trans t.scale s.scale max_scale z.0 high) in
      (
        subst (λ u. Same u.x s.x) (sym e) x,
        subst (λ u. Same u.y s.y) (sym e) y,
        subst (λ u. Same u.scale s.scale) (sym e) (Same-trans _ t.scale s.scale c z),
      )
