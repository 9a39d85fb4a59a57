-- ===== src/Adivento/Sheet/Document.antt =====
-- Calls of `open` and `close` by id, over all the sheets of the document.
use mathlib.Core.Option
use adivento.Base.{
  String, Bool, true, false, none, ◌≡◌, ◌===◌, ===_iff, ===_refl, string_eq, arith, if◌then◌else◌,
  Option-cases, inl, inr,
}
use adivento.Adivento.Sheet.{Sheet, toggle, Document, toggle_id}

-- A repeated call of `open`, or of `close` on a sheet without a scrim, changes nothing more.
toggle-true_idem : (s : Sheet) → toggle true (toggle true s) ≡ toggle true s
unfolding toggle
toggle-true_idem s = ground arith

toggle-false_idem : (s : Sheet) → s.scrim ≡ none → toggle false (toggle false s) ≡ toggle false s
unfolding toggle
toggle-false_idem s h = ground arith

-- A call by id does its work on the sheet of that id if there is one, and leaves every other sheet
-- alone.
pub toggle_id_lem :
    (id j : String) (show : Bool) (doc : Document)
    → toggle_id id show doc j ≡ (if id === j then Option.map (toggle show) (doc j) else doc j)
unfolding toggle_id
toggle_id_lem id j show doc = elim (Option-cases (doc id)) [
  | inl e ↦ ground (arith, ===_iff id j)
  | inr (s, e) ↦ ground (arith, ===_iff id j)
]

-- Opening a sheet by its id a second time changes no sheet of the document.
pub toggle_id-true_idem :
    (id j : String) (doc : Document)
    → toggle_id id true (toggle_id id true doc) j ≡ toggle_id id true doc j
unfolding toggle_id
toggle_id-true_idem id j doc = elim (Option-cases (doc id)) [
  | inl e ↦ ground (arith, ===_iff id j, ===_refl id)
  | inr (s, e) ↦ ground (arith, ===_iff id j, ===_refl id, toggle-true_idem s)
]
