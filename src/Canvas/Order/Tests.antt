-- ===== src/Canvas/Order/Tests.antt =====
-- A section with artboards, and the theorems at it.
use adivento.Base.{
  some, none, [], ◌∷◌, filter, if◌then◌else◌, ◌≡◌, refl, arith, List, String, count, includes,
  string_eq, join, map,
}
use adivento.Canvas.Order.{
  Element, artboard, other, Section, slot_ids, section_order, on_reorder, on_delete, src_key_of,
  artboards_of, all_ids, hidden_of, src_ids, arrange,
}
use adivento.Canvas.Order.Laws.{section_order-slot_ids, count-slot_ids}
use adivento.Canvas.Order.Edits.{slot_ids-on_delete, slot_ids-on_reorder, other_than}

abbrev children : List Element
children =
    artboard (record { id = some "a"; label = some "First" })
    ∷ other
    ∷ artboard (record { id = none; label = some "b" })
    ∷ artboard (record { id = some ""; label = some "c" })
    ∷ artboard (record { id = some "d"; label = none })
    ∷ []

abbrev sec : Section
sec = record {
  title = none;
  order = some ("d" ∷ "x" ∷ "a" ∷ []);
  labels = none;
  hidden = none;
  src_key = none;
}

in_order : slot_ids sec children ≡ "d" ∷ "a" ∷ "b" ∷ []
unfolding slot_ids
in_order = refl

after_delete : slot_ids (on_delete children "a" sec) children ≡ "d" ∷ "b" ∷ []
unfolding slot_ids on_delete join
after_delete = refl

section_order-slot_ids_example :
    (src_key_of (all_ids children) ≡ src_key_of (map (λ p. p.0) (artboards_of children)))
    × (section_order sec children ≡ slot_ids sec children)
section_order-slot_ids_example = section_order-slot_ids sec children

count-slot_ids_example :
    count "a" (slot_ids sec children)
    ≡ (if includes (hidden_of sec (all_ids children)) "a" then 0 else count "a" (all_ids children))
unfolding all_ids
count-slot_ids_example = count-slot_ids "a" sec children (omega arith) (omega arith)

slot_ids-on_delete_example :
    slot_ids (on_delete children "a" sec) children ≡ filter (other_than "a") (slot_ids sec children)
slot_ids-on_delete_example = slot_ids-on_delete "a" sec children

abbrev moved : List String
moved = "b" ∷ "d" ∷ "a" ∷ []

moved_same : (k : String) → includes moved k ≡ includes (section_order sec children) k
unfolding section_order src_ids arrange hidden_of
moved_same k = ground (arith)

slot_ids-on_reorder_example : slot_ids (on_reorder moved sec) children ≡ moved
slot_ids-on_reorder_example = slot_ids-on_reorder moved sec children moved_same
