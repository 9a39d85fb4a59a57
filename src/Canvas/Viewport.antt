-- ===== src/Canvas/Viewport.antt =====
-- docs/design/wireframes/v2/design-canvas.jsx, `DCViewport`: the pan and zoom of the canvas, the
-- scale that is posted to the host, and the viewport that is kept in `localStorage`.
-- What the browser measures is part of an event: the viewport's rectangle, and the drift of the
-- element under the cursor after the reflow, if there is one.
pub mod Scale
pub mod Saved
mod Tests
use adivento.Base.Texts.{Text}
use adivento.Base.{
  ℕ, Bool, true, false, not, ◌&&◌, ◌||◌, Option, none, some, List, [], ◌∷◌, ◌++◌, if◌then◌else◌,
  ◌===◌, nat_eq,
}
use adivento.Number.{Number, min, max}

-- The functions of `Math` and `Number` that only the viewport uses.
pub record MathOf (N : Number) : Type 0 where
  pub exp : N.Num → N.Num
  pub sign : N.Num → N.Num
  pub neg : N.Num → N.Num
  pub is_integer : N.Num → Bool
  pub is_finite : N.Num → Bool

pub record Transform (N : Number) : Type 0 where
  pub x : N.Num
  pub y : N.Num
  pub scale : N.Num

-- `JSON.stringify` of a transform to the codes of a text, and `JSON.parse` of such a text: `none` is
-- a text that it throws at, and a value without the numbers `x`, `y` and `scale`.
pub record Json (N : Number) : Type 0 where
  pub stringify : Transform N → Text
  pub parse : Text → Option (Transform N)

-- A drag: `drag.id`, `drag.lx`, `drag.ly`.
pub record Pan (N : Number) : Type 0 where
  pub id : ℕ
  pub lx : N.Num
  pub ly : N.Num

-- A message to the host.
pub data Message (N : Number) : Type 0 where
  dc_zoom : N.Num → Message N
  dc_present : Message N

-- The refs and variables of the component, the messages posted, what `localStorage` holds, and
-- whether the timer that saves is set.
pub record View (N : Number) : Type 0 where
  pub tf : Transform N
  pub last_posted_scale : Option N.Num
  pub posted : List (Message N)
  pub saved : Option Text
  pub saving : Bool
  pub gs_base : N.Num
  pub is_gesturing : Bool
  pub drag : Option (Pan N)

-- The rectangle of the viewport.
pub record Rect (N : Number) : Type 0 where
  pub left : N.Num
  pub top : N.Num
  pub width : N.Num
  pub height : N.Num

pub record Wheel (N : Number) : Type 0 where
  pub delta_mode : ℕ
  pub delta_x : N.Num
  pub delta_y : N.Num
  pub ctrl_or_meta : Bool
  pub client_x : N.Num
  pub client_y : N.Num

module _ (N : Number) (maths : MathOf N) (json : Json N) (min_scale max_scale : N.Num) where
  open N use {Num, of, add, sub, mul, div, le, lt, abs}

  -- `a === b` on numbers
  pub same : Num → Num → Bool
  same a b = le a b && le b a

  -- `lastPostedScale.current !== scale`, negated
  pub posted_already : Option Num → Num → Bool
  unfolding same
  posted_already none s = false
  posted_already (some l) s = same l s

  -- `apply()`
  pub apply : View N → View N
  unfolding posted_already
  apply v =
      if posted_already v.last_posted_scale v.tf.scale
      then record v { saving = true }
      else record v {
        saving = true;
        last_posted_scale = some v.tf.scale;
        posted = v.posted ++ dc_zoom v.tf.scale ∷ [];
      }

  -- `Math.min(maxScale, Math.max(minScale, s))`
  pub clamp_scale : Num → Num
  clamp_scale s = min N max_scale (max N min_scale s)

  -- `if (marker) { … if (Math.abs(drift) > 0.1) { t.y -= drift; apply(); } }`
  pub cancel_drift : Option Num → View N → View N
  unfolding apply
  cancel_drift none v = v
  cancel_drift (some drift) v =
      if lt (div (of 1) (of 10)) (abs drift)
      then apply (record v { tf = record v.tf { y = sub v.tf.y drift } })
      else v

  -- `t.x = …; t.y = …; t.scale = next;`
  pub scale_to : Num → Num → Num → Num → View N → View N
  scale_to px py next k v = record v {
    tf = record {
      x = sub px (mul (sub px v.tf.x) k);
      y = sub py (mul (sub py v.tf.y) k);
      scale = next;
    };
  }

  -- `zoomAt(cx, cy, factor)`; a marker is looked up only if `k !== 1`.
  pub zoom_at : Rect N → Option Num → Num → Num → Num → View N → View N
  unfolding clamp_scale apply cancel_drift same scale_to
  zoom_at r drift cx cy factor v =
      let next = clamp_scale (mul v.tf.scale factor) in
      let k = div next v.tf.scale in
      cancel_drift (if same k (of 1) then none else drift)
        (apply (scale_to (sub cx r.left) (sub cy r.top) next k v))

  -- `isMouseWheel(e)`
  pub is_mouse_wheel : Wheel N → Bool
  unfolding same
  is_mouse_wheel e =
      not (e.delta_mode === 0)
      || (same e.delta_x (of 0) && maths.is_integer e.delta_y && le (of 40) (abs e.delta_y))

  -- `tf.current.x -= e.deltaX; tf.current.y -= e.deltaY;`
  pub scroll : Wheel N → View N → View N
  scroll e v = record v { tf = record v.tf { x = sub v.tf.x e.delta_x; y = sub v.tf.y e.delta_y } }

  -- `onWheel`
  pub on_wheel : Rect N → Option Num → Wheel N → View N → View N
  unfolding zoom_at is_mouse_wheel apply scroll
  on_wheel r drift e v =
      if v.is_gesturing
      then v
      else (if e.ctrl_or_meta && not (is_mouse_wheel e)
          then zoom_at r drift e.client_x e.client_y
              (maths.exp (mul (maths.neg e.delta_y) (div (of 1) (of 100)))) v
          else (if is_mouse_wheel e
              then zoom_at r drift e.client_x e.client_y
                  (maths.exp (mul (maths.neg (maths.sign e.delta_y)) (div (of 18) (of 100)))) v
              else apply (scroll e v)))

  -- `onPointerMove` with the drag
  pub pan : Option (Pan N) → ℕ → Num → Num → View N → View N
  unfolding apply
  pan none id cx cy v = v
  pan (some d) id cx cy v =
      if d.id === id
      then apply (record v {
        tf = record v.tf { x = add v.tf.x (sub cx d.lx); y = add v.tf.y (sub cy d.ly) };
        drag = some (record { id = d.id; lx = cx; ly = cy });
      })
      else v

  -- `onPointerUp` with the drag
  pub release : Option (Pan N) → ℕ → View N → View N
  release none id v = v
  release (some d) id v = if d.id === id then record v { drag = none } else v

  -- `pointer_down button on_bg id x y`; `set_zoom` and `probe` are the messages of the host;
  -- `pagehide` is the flush, also at the unmount; `save_timer` is the timer of `apply`; both say
  -- whether the storage accepts what they write.
  pub data Event : Type 0 where
    wheel : Rect N → Option Num → Wheel N → Event
    gesture_start : Event
    gesture_change : Rect N → Option Num → Num → Num → Num → Event
    gesture_end : Event
    pointer_down : ℕ → Bool → ℕ → Num → Num → Event
    pointer_move : ℕ → Num → Num → Event
    pointer_up : ℕ → Event
    set_zoom : Rect N → Option Num → Num → Event
    probe : Event
    save_timer : Bool → Event
    pagehide : Bool → Event

  -- `__dc_present` is posted, and then the scale again.
  pub announce : View N → View N
  unfolding apply
  announce v = apply (record v { posted = v.posted ++ dc_present ∷ []; last_posted_scale = none })

  -- `try { localStorage.setItem(tfKey, JSON.stringify(tf.current)); } catch {}`, with the timer
  -- cleared; `setItem` throws where the storage does not accept the text.
  pub save : Bool → View N → View N
  save accepts v = record v {
    saved = if accepts then some (json.stringify v.tf) else v.saved;
    saving = false;
  }

  pub handle : Event → View N → View N
  unfolding on_wheel zoom_at pan release announce save
  handle (wheel r drift e) v = on_wheel r drift e v
  handle gesture_start v = record v { is_gesturing = true; gs_base = v.tf.scale }
  handle (gesture_change r drift cx cy s) v =
      zoom_at r drift cx cy (div (mul v.gs_base s) v.tf.scale) v
  handle gesture_end v = record v { is_gesturing = false }
  handle (pointer_down button on_bg id cx cy) v =
      if button === 1 || (button === 0 && on_bg)
      then record v { drag = some (record { id = id; lx = cx; ly = cy }) }
      else v
  handle (pointer_move id cx cy) v = pan v.drag id cx cy v
  handle (pointer_up id) v = release v.drag id v
  handle (set_zoom r drift s) v =
      zoom_at r drift (add r.left (div r.width (of 2))) (add r.top (div r.height (of 2)))
        (div s v.tf.scale) v
  handle probe v = announce v
  handle (save_timer accepts) v = if v.saving then save accepts v else v
  handle (pagehide accepts) v = save accepts v

  pub run : List Event → View N → View N
  unfolding handle
  run [] v = v
  run (e ∷ es) v = run es (handle e v)

  -- The initial values of the refs, with what `localStorage` holds.
  pub initial : Option Text → View N
  initial saved = record {
    tf = record { x = of 0; y = of 0; scale = of 1 };
    last_posted_scale = none;
    posted = [];
    saved = saved;
    saving = false;
    gs_base = of 1;
    is_gesturing = false;
    drag = none;
  }

  -- `tf.current = { x: s.x, y: s.y, scale: … }`
  pub move_to : Transform N → View N → View N
  unfolding clamp_scale
  move_to s v = record v { tf = record { x = s.x; y = s.y; scale = clamp_scale s.scale } }

  -- `JSON.parse(localStorage.getItem(tfKey) || 'null')`
  pub read_saved : Option Text → Option (Transform N)
  read_saved none = none
  read_saved (some []) = none
  read_saved (some (c ∷ cs)) = json.parse (c ∷ cs)

  -- The read of the saved viewport in the layout effect
  pub restore : Option (Transform N) → View N → View N
  unfolding move_to apply
  restore none v = v
  restore (some s) v =
      if maths.is_finite s.x && maths.is_finite s.y && maths.is_finite s.scale
      then apply (move_to s v)
      else v

  -- The mount: both effects.
  pub mount : Option Text → View N
  unfolding initial restore announce read_saved
  mount saved = announce (restore (read_saved saved) (initial saved))
