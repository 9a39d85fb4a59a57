-- ===== src/Adivento/Sheet.antt =====
-- `Adivento.sheet` of app/assets/javascripts/adivento.js: a bottom sheet, the scrims that stand
-- behind it in the body, and the timers that remove them.
-- A sheet touches only the scrims that it made, so the
-- body and the pending `setTimeout` callbacks are kept for each sheet. All delays are 250 ms, so
-- callbacks run in the order in which they were set.
pub mod Cycle
pub mod Document
mod Tests
use adivento.Base.{
  ℕ, suc, String, Bool, true, false, not, Option, none, some, List, [], ◌∷◌, ◌++◌, map, filter, any,
  ◌===◌, if◌then◌else◌, ◌&&◌, nat_eq, string_eq,
}

-- A scrim element in the body; `id` is its identity.
pub record Scrim : Type 0 where
  pub id : ℕ
  pub hidden : Bool

pub record Sheet : Type 0 where
  pub hidden : Bool
  pub scrim : Option ℕ
  pub body : List Scrim
  pub timers : List ℕ
  pub fresh : ℕ

-- `scrim.hidden = true`
pub hide_scrim : ℕ → List Scrim → List Scrim
hide_scrim k = map (λ c. if c.id === k then record c { hidden = true } else c)

-- `scrim.remove()`
pub remove_scrim : ℕ → List Scrim → List Scrim
remove_scrim k = filter (λ c. not (c.id === k))

-- The two branches on `show` and `sheet._scrim`; the other cases do nothing more.
pub toggle_scrim : Bool → Option ℕ → Sheet → Sheet
unfolding hide_scrim
toggle_scrim true none s = record s {
  scrim = some s.fresh;
  body = s.body ++ record { id = s.fresh; hidden = false } ∷ [];
  fresh = suc s.fresh;
}
toggle_scrim false (some k) s = record s { body = hide_scrim k s.body; timers = s.timers ++ k ∷ [] }
toggle_scrim true (some k) s = s
toggle_scrim false none s = s

-- `_toggle(sheet, show)` for the element that was found
pub toggle : Bool → Sheet → Sheet
unfolding toggle_scrim
toggle show s = toggle_scrim show s.scrim (record s { hidden = not show })

-- The sheets of the document, by their ids.
abbrev pub Document : Type 0
Document = String → Option Sheet

-- `_toggle(id, show)`: an id that names no element changes nothing.
pub toggle_id : String → Bool → Document → Document
toggle_id id show doc j = elim (doc id) [
  | none ↦ doc j
  | some s ↦ if id === j then some (toggle show s) else doc j
]

-- The callback of `setTimeout`: it removes the scrim that it captured and clears `_scrim`.
pub fire : List ℕ → Sheet → Sheet
unfolding remove_scrim
fire [] s = s
fire (k ∷ rest) s = record s { scrim = none; body = remove_scrim k s.body; timers = rest }

pub timeout : Sheet → Sheet
unfolding fire
timeout s = fire s.timers s

-- The click listener of a scrim; an element that is hidden or removed gets no click.
pub click_scrim : ℕ → Sheet → Sheet
unfolding toggle
click_scrim k s = if any (λ c. c.id === k && not c.hidden) s.body then toggle false s else s

-- What a visitor sees behind the sheet.
pub dimmed : Sheet → Bool
dimmed s = any (λ c. not c.hidden) s.body

-- A sheet as the page is loaded, with its `hidden` attribute.
abbrev pub loaded : ℕ → Sheet
loaded n = record { hidden = true; scrim = none; body = []; timers = []; fresh = n }
