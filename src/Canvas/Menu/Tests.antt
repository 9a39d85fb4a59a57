-- ===== src/Canvas/Menu/Tests.antt =====
-- Sessions of the menu, and the theorem at one.
use adivento.Base.{[], ◌∷◌, ◌++◌, ◌≡◌, ◌≢◌, ◌≤◌, refl, arith, true, false, suc, List}
use adivento.Canvas.Menu.{Event, kebab, press_outside, delete, handle, run, fresh_menu}
use adivento.Canvas.Menu.Clicks.{run-deleted, clicks}

disarmed : (run (kebab ∷ delete ∷ press_outside ∷ kebab ∷ delete ∷ []) fresh_menu).deleted ≡ 0
unfolding run fresh_menu
disarmed = refl

abbrev armed : List Event
armed = kebab ∷ delete ∷ []

deletes : (handle delete (run armed fresh_menu)).deleted ≢ (run armed fresh_menu).deleted
unfolding run fresh_menu
deletes h = ground arith

run-deleted_example :
    ((run armed fresh_menu).menu_open ≡ true)
    × (2 ≤ clicks 0 (armed ++ delete ∷ []))
    × ((handle delete (run armed fresh_menu)).deleted ≡ suc (run armed fresh_menu).deleted)
    × ((handle delete (run armed fresh_menu)).menu_open ≡ false)
run-deleted_example = run-deleted armed delete deletes
