-- ===== src/Canvas/Persist/Tests.antt =====
-- Sessions of the canvas, and the theorems at them.
use adivento.Base.{some, none, [], ◌∷◌, List, true, false, ◌≡◌, refl, string_eq}
use adivento.Canvas.Order.{Section}
use adivento.Canvas.Persist.{
  Sections, mounted, Event, edit, focuses, settles, waited, timer, handle, run, section,
  patch_section, no_section,
}
use adivento.Canvas.Persist.Safe.{run-timer-file, run-quiet, run-unread}
use adivento.Canvas.Persist.Edited.{edited, since_read}

abbrev saved : Sections
saved = ("main", record no_section { title = some "Main" }) ∷ []

abbrev rename : Section → Section
rename s = record s { title = some "Flows" }

abbrev session : List Event
session =
    waited ∷ edit "old" rename ∷ settles true ∷ focuses (some "main/a") ∷ edit "main" rename ∷ []

early_edit_lost : section "old" (run session (mounted true (some saved))).sections ≡ no_section
unfolding run section patch_section mounted
early_edit_lost = refl

run-timer-file_example :
    ((handle (timer true) (run session (mounted true (some saved)))).file
      ≡ some (run session (mounted true (some saved))).sections)
    × ((run session (mounted true (some saved))).sections ≡ edited (since_read session) saved)
unfolding run mounted
run-timer-file_example = run-timer-file saved session (tt, (tt, (refl, (tt, (tt, tt))))) refl refl

-- An edit whose write the host refuses is not written by a later timer.
refused_write_lost :
    (run (timer false ∷ timer true ∷ []) (run session (mounted true (some saved)))).file
    ≡ some saved
unfolding run mounted
refused_write_lost = refl

run-quiet_example :
    ((run (waited ∷ settles true ∷ timer true ∷ []) (mounted true (some saved))).pending ≡ none)
    × ((run (waited ∷ settles true ∷ timer true ∷ []) (mounted true (some saved))).file
        ≡ some saved)
run-quiet_example =
    run-quiet true (some saved) (waited ∷ settles true ∷ timer true ∷ []) (refl, (refl, (refl, tt)))

run-unread_example :
    ((run (waited ∷ edit "main" rename ∷ timer true ∷ []) (mounted true (some saved))).pending
      ≡ none)
    × ((run (waited ∷ edit "main" rename ∷ timer true ∷ []) (mounted true (some saved))).file
        ≡ some saved)
unfolding run mounted
run-unread_example =
    run-unread true (some saved) (waited ∷ edit "main" rename ∷ timer true ∷ []) refl
