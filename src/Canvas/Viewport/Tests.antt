-- ===== src/Canvas/Viewport/Tests.antt =====
-- Sessions of a viewport between the scales 1 and 8, and the theorems at one.
use adivento.Base.Texts.{Text}
use adivento.Base.{
  ℕ, Bool, true, false, some, none, [], ◌∷◌, List, Option, ◌≡◌, refl, zero, suc, arith, le→leb,
}
use adivento.Number.{Le}
use adivento.Number.Exact.{exact, exact-IsIeee}
use adivento.Canvas.Viewport.{
  MathOf, Json, Transform, View, Rect, Wheel, Event, wheel, pointer_down, pointer_move, pointer_up,
  pagehide, handle, run, mount, read_saved,
}
use adivento.Canvas.Viewport.Scale.{InBounds, run-mount-InBounds}
use adivento.Canvas.Viewport.Saved.{session, mount-pagehide, IsJson, Same}

abbrev finite : Option ℕ → Bool
finite none = false
finite (some n) = true

-- Whole numbers, where each turn of the wheel triples.
abbrev maths : MathOf exact
maths = record {
  exp = λ a. some 3;
  sign = λ a. some 1;
  neg = λ a. a;
  is_integer = finite;
  is_finite = finite;
}

-- Whole numbers as the codes of a text
abbrev code : Option ℕ → ℕ
code none = 0
code (some n) = suc n

abbrev decoded : ℕ → Option ℕ
decoded zero = none
decoded (suc n) = some n

abbrev text_of : Transform exact → Text
text_of t = code t.x ∷ code t.y ∷ code t.scale ∷ []

abbrev read_text : Text → Option (Transform exact)
read_text (a ∷ b ∷ c ∷ []) = some (record { x = decoded a; y = decoded b; scale = decoded c })
read_text _ = none

abbrev json : Json exact
json = record { stringify = text_of; parse = read_text }

finite-Same : (n : Option ℕ) → finite n ≡ true → Le exact n n × Le exact n n
finite-Same none h = cc
finite-Same (some n) h = (le→leb n n (omega arith), le→leb n n (omega arith))

decoded-code : (n : Option ℕ) → decoded (code n) ≡ n
decoded-code none = refl
decoded-code (some n) = refl

json-IsJson : IsJson exact exact-IsIeee maths json (some 1) (some 8)
unfolding read_saved
json-IsJson s f = (
  s,
  rw (decoded-code s.x, decoded-code s.y, decoded-code s.scale) refl,
  f,
  finite-Same s.x f.0,
  finite-Same s.y f.1,
  finite-Same s.scale f.2,
)

abbrev rect : Rect exact
rect = record { left = some 0; top = some 0; width = some 100; height = some 100 }

abbrev turn : Wheel exact
turn = record {
  delta_mode = 1;
  delta_x = some 0;
  delta_y = some 3;
  ctrl_or_meta = false;
  client_x = some 0;
  client_y = some 0;
}

abbrev events : List (Event exact maths json (some 1) (some 8))
events =
    wheel rect none turn
    ∷ wheel rect none turn
    ∷ pointer_down 1 false 5 (some 10) (some 10)
    ∷ pointer_move 5 (some 30) (some 15)
    ∷ pointer_up 5
    ∷ []

zoomed_and_panned :
    (run exact maths json
      (some 1)
      (some 8)
      events
      (mount exact maths json (some 1) (some 8) none)).tf
    ≡ record { x = some 20; y = some 5; scale = some 8 }
unfolding run mount
zoomed_and_panned = refl

run-mount-InBounds_example :
    InBounds exact exact-IsIeee maths json
      (some 1)
      (some 8)
      (run exact maths json
        (some 1)
        (some 8)
        events
        (mount exact maths json (some 1) (some 8) none)).tf.scale
run-mount-InBounds_example =
    run-mount-InBounds exact exact-IsIeee maths json (some 1) (some 8) none events refl refl

abbrev view : View exact
view = session exact exact-IsIeee maths json (some 1) (some 8) none events

abbrev reopened : View exact
reopened =
    mount exact maths json (some 1) (some 8)
      (handle exact maths json (some 1) (some 8) (pagehide true) view).saved

mount-pagehide_example :
    Same exact exact-IsIeee maths json (some 1) (some 8) reopened.tf.x view.tf.x
    × Same exact exact-IsIeee maths json (some 1) (some 8) reopened.tf.y view.tf.y
    × Same exact exact-IsIeee maths json (some 1) (some 8) reopened.tf.scale view.tf.scale
unfolding run mount
mount-pagehide_example =
    mount-pagehide exact exact-IsIeee maths json (some 1) (some 8) none events json-IsJson refl refl
      (refl, refl, refl, refl)

-- A storage that refuses the text leaves nothing for the next mount.
refused :
    (mount exact maths json
      (some 1)
      (some 8)
      (handle exact maths json (some 1) (some 8) (pagehide false) view).saved).tf
    ≡ record { x = some 0; y = some 0; scale = some 1 }
unfolding run mount handle
refused = refl
