-- ===== src/Canvas/Drag/Tests.antt =====
-- The last artboard of three, in a row from right to left, is dragged to the middle.
use adivento.Base.{
  ℕ, join, some, none, [], ◌∷◌, List, index_of, get_elem?, All, string_eq, ◌≡◌, refl,
}
use adivento.Number.{Le}
use adivento.Number.Exact.{exact, exact-IsIeee}
use adivento.Canvas.Order.{Element, artboard, Section, slot_ids, section_order, on_reorder}
use adivento.Canvas.Drag.{Drag, grab, start_home, move, moves, drop, distances}
use adivento.Canvas.Drag.Nearest.{move-nearest}
use adivento.Canvas.Drag.Drop.{Keeps, slot_ids-drop}

abbrev children : List Element
children =
    artboard (record { id = some "a"; label = none })
    ∷ artboard (record { id = some "b"; label = none })
    ∷ artboard (record { id = some "c"; label = none })
    ∷ []

abbrev sec : Section
sec = record { title = none; order = none; labels = none; hidden = none; src_key = none }

abbrev held : Drag exact
held = grab exact "c" ("a" ∷ "b" ∷ "c" ∷ []) (some 600 ∷ some 300 ∷ some 0 ∷ []) (some 10)

dragged : (move exact (some 310) held).live_order ≡ "a" ∷ "c" ∷ "b" ∷ []
unfolding move grab
dragged = refl

move-nearest_example :
    (near : ℕ) × (best : exact.Num) × (index_of (move exact (some 310) held).live_order held.id
      ≡ some near)
    × (get_elem? (distances exact held.homes (some 300)) near ≡ some best)
    × All (Le exact best) (distances exact held.homes (some 300))
unfolding grab start_home distances
move-nearest_example =
    move-nearest exact exact-IsIeee (some 0) (some 310) held refl refl refl
      (refl, (refl, (refl, tt)))

slot_ids-drop_example :
    Keeps "c" (section_order sec children) ("a" ∷ "c" ∷ "b" ∷ [])
    × (slot_ids (on_reorder ("a" ∷ "c" ∷ "b" ∷ []) sec) children ≡ "a" ∷ "c" ∷ "b" ∷ [])
unfolding drop moves grab join section_order
slot_ids-drop_example =
    slot_ids-drop exact "c" sec children (some 600 ∷ some 300 ∷ some 0 ∷ []) (some 10)
      (some 310 ∷ []) ("a" ∷ "c" ∷ "b" ∷ []) refl refl
