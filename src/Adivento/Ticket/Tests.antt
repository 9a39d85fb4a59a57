-- ===== src/Adivento/Ticket/Tests.antt =====
-- A ticket with two price boxes, and the theorems at it.
use adivento.Base.{ℕ, false, some, [], ◌∷◌, ◌≡◌, refl}
use adivento.Number.Exact.{exact}
use adivento.Adivento.Ticket.{PriceBox, Ticket, recalc, handle, input, click_box, click_quick, run}
use adivento.Adivento.Ticket.Laws.{IsFresh, run-IsFresh}

abbrev box : ℕ → PriceBox exact
box p = record { price = some p; selected = false }

abbrev ticket : Ticket exact
ticket = record {
  boxes = box 50 ∷ box 25 ∷ [];
  stake = some (some 100);
  payout = some (some 0);
  profit = some (some 0);
}

ticket-payout :
    (run exact (recalc exact ticket) (click_box 1 ∷ input (some 10) ∷ [])).payout ≡ some (some 40)
unfolding run recalc handle
ticket-payout = refl

run-IsFresh_example :
    IsFresh exact (run exact (recalc exact ticket) (click_box 1 ∷ click_quick (some 250) ∷ []))
run-IsFresh_example = run-IsFresh exact ticket (click_box 1 ∷ click_quick (some 250) ∷ [])
