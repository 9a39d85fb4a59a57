-- ===== src/React/Market/Ticket/Tests.antt =====
-- A ticket at 40 and 60 cents: `no` is clicked, 30 is typed, and the order is submitted.
use adivento.Base.{ℕ, Option, none, some, [], ◌∷◌, String, string_eq, ◌≡◌, refl, All}
use adivento.Number.Exact.{exact}
use adivento.React.Market.Cards.{price_boxes, price_box}
use adivento.React.Atoms.{card, button}
use adivento.React.Market.Ticket.{
  Terms, Ticket, set_side, set_stake, submit, fresh_ticket, price, payout, order_of, typed_stake,
  act, bet_ticket, stake_field, chips, summary, buy_button,
}
use adivento.React.Market.Ticket.Session.{
  Session, opened, clicked, typed, Session-IsPriced, IsSide, Submits, IsPriced,
}

abbrev text_of_num : Option ℕ → String
text_of_num n = "n"

abbrev typed_num : String → Option ℕ
typed_num s = some 30

abbrev upper : String → String
upper s = s

abbrev terms : Terms exact text_of_num text_of_num typed_num upper
terms = record { yes_pct = some 40; no_pct = some 60; balance = none; quick = some 50 ∷ [] }

abbrev at_no : Ticket exact text_of_num text_of_num typed_num upper
at_no =
    act exact text_of_num text_of_num typed_num upper
      (fresh_ticket exact text_of_num text_of_num typed_num upper) (set_side "no")

abbrev with_stake : Ticket exact text_of_num text_of_num typed_num upper
with_stake =
    act exact text_of_num text_of_num typed_num upper at_no
      (set_stake (typed_stake exact text_of_num text_of_num typed_num upper "30"))

abbrev bought : Ticket exact text_of_num text_of_num typed_num upper
bought =
    act exact text_of_num text_of_num typed_num upper with_stake
      (submit (order_of exact text_of_num text_of_num typed_num upper terms with_stake))

bought-submitted : bought.submitted ≡ record { side = "no"; stake = some 30; payout = some 30 } ∷ []
unfolding act fresh_ticket typed_stake order_of payout price
bought-submitted = refl

session : Session exact text_of_num text_of_num typed_num upper terms bought
unfolding bet_ticket card price_boxes price_box stake_field chips summary buy_button button
session =
    clicked 3 (submit (order_of exact text_of_num text_of_num typed_num upper terms with_stake))
      refl (typed "30" (clicked 1 (set_side "no") refl opened))

Session-IsPriced_example :
    IsSide exact text_of_num text_of_num typed_num upper terms bought.side
    × Submits exact text_of_num text_of_num typed_num upper terms bought
    × All (IsPriced exact text_of_num text_of_num typed_num upper terms) bought.submitted
Session-IsPriced_example =
    Session-IsPriced exact text_of_num text_of_num typed_num upper terms bought session
