-- ===== src/Adivento/Sheet/Tests.antt =====
-- Runs of a sheet, and the theorems at concrete sheets.
use adivento.Base.{
  String, true, false, not, none, some, [], ◌≡◌, refl, ◌≢◌, length, ◌≤◌, ◌===◌, string_eq,
  if◌then◌else◌,
}
use adivento.Adivento.Sheet.{Sheet, toggle, timeout, click_scrim, dimmed, loaded, Document}
use adivento.Adivento.Sheet.Cycle.{
  here, next, opens, closes, expires, clicks, Reach-dimmed, Undimmed, reopen-Undimmed,
}

-- Opened, clicked away, and left until the scrim is gone.
abbrev used : Sheet
used = timeout (click_scrim 0 (toggle true (loaded 0)))

used-loaded : used ≡ loaded 1
unfolding toggle click_scrim timeout
used-loaded = refl

Reach-dimmed_example : (dimmed used ≡ not used.hidden) × (length used.body ≤ 1)
Reach-dimmed_example = Reach-dimmed 0 (next (next (next here (opens refl)) (clicks 0)) expires)

abbrev closing_sheet : Sheet
closing_sheet = toggle false (toggle true (loaded 0))

closing_sheet-timers : closing_sheet.timers ≢ []
unfolding toggle
closing_sheet-timers e = cc

toggle-timers : (toggle true (loaded 0)).timers ≡ []
unfolding toggle
toggle-timers = refl

reopen-Undimmed_example :
    Undimmed (toggle true closing_sheet) × Undimmed (timeout (toggle true closing_sheet))
reopen-Undimmed_example =
    reopen-Undimmed 0 (next (next here (opens refl)) (closes toggle-timers)) closing_sheet-timers

abbrev two_sheets : Document
two_sheets j =
    if "ticket" === j then some (loaded 0) else (if "menu" === j then some (loaded 5) else none)

abbrev ticket : String
ticket = "ticket"

abbrev menu : String
menu = "menu"
