-- ===== src/React/Market/Ticket/Session.antt =====
-- `BetTicket` over a session: the clicks that it offers, and the orders that are submitted.
use adivento.Base.{
  ℕ, zero, suc, Option, none, some, some-injective, List, [], ◌∷◌, ◌++◌, map, String, string_eq,
  if◌then◌else◌, if◌then◌else◌, ◌≡◌, refl, sym, subst, ◌⊎◌, inl, inr, All, All-append, get_elem?,
}
use adivento.Number.{Number}
use adivento.Markup.{Nodes, nodes, append}
use adivento.Markup.Queries.{clicks, clicks_all}
use adivento.React.Atoms.{card, button}
use adivento.React.Market.Cards.{price_boxes, price_box}
use adivento.React.Market.Ticket.{
  Terms, Order, Ticket, Action, set_side, set_stake, submit, fresh_ticket, price, payout, order_of,
  typed_stake, act, bet_ticket, balance_text, chips, stake_field, summary, buy_button, stake_chip,
  max_chip,
}

All-get_elem? :
    {A : Type 0} (P : A → Type 0) (xs : List A) (i : ℕ) (a : A)
    → All P xs
    → get_elem? xs i ≡ some a
    → P a
All-get_elem? P [] i a h e = cc
All-get_elem? P (x ∷ xs) zero a h e = subst P (some-injective x a e) h.0
All-get_elem? P (x ∷ xs) (suc i) a h e = All-get_elem? P xs i a h.1 e

-- What has a place in a list has one in a list that ends with it.
placed_after :
    {A : Type 0} (xs ys : List A) (a : A)
    → (i : ℕ) × (get_elem? ys i ≡ some a)
    → (j : ℕ) × (get_elem? (xs ++ ys) j ≡ some a)
placed_after [] ys a h = h
placed_after (x ∷ xs) ys a h = let r = placed_after xs ys a h in (suc r.0, r.1)

module _ (N : Number) (show fmt : N.Num → String) (parse : String → N.Num) (upper : String → String)
    (terms : Terms N show fmt parse upper) where
  -- What a click on the ticket can do.
  abbrev Allowed : Ticket N show fmt parse upper → Action N show fmt parse upper → Type 0
  Allowed t (set_side s) = (s ≡ "yes") ⊎ (s ≡ "no")
  Allowed t (set_stake n) = Unit
  Allowed t (submit o) = o ≡ order_of N show fmt parse upper terms t

  All-chips :
      (t : Ticket N show fmt parse upper) (qs : List N.Num)
      (rest : Nodes (Action N show fmt parse upper))
      → All (Allowed t) (clicks_all rest)
      → All (Allowed t) (
          clicks_all
            (append (nodes (map (λ q. stake_chip N show fmt parse upper q (show q)) qs)) rest))
  All-chips t [] rest h = h
  All-chips t (q ∷ qs) rest h = (tt, All-chips t qs rest h)

  All-max_chip :
      (t : Ticket N show fmt parse upper) (b : Option N.Num)
      → All (Allowed t) (clicks_all (max_chip N show fmt parse upper b))
  All-max_chip t none = tt
  All-max_chip t (some b) = (tt, tt)

  All-balance_text :
      (t : Ticket N show fmt parse upper) (b : Option N.Num)
      → All (Allowed t) (clicks_all (balance_text N show fmt parse upper b))
  All-balance_text t none = tt
  All-balance_text t (some b) = tt

  clicks-bet_ticket :
      (t : Ticket N show fmt parse upper)
      → All (Allowed t) (clicks (bet_ticket N show fmt parse upper terms t))
  unfolding bet_ticket card price_boxes price_box stake_field chips summary buy_button button
  clicks-bet_ticket t =
      All-append (Allowed t) (clicks_all (balance_text N show fmt parse upper terms.balance)) _
        (All-balance_text t terms.balance)
        (
          inl refl,
          (
            inr refl,
            All-append (Allowed t)
                (clicks_all (
                  append
                    (nodes (map (λ q. stake_chip N show fmt parse upper q (show q)) terms.quick))
                    (max_chip N show fmt parse upper terms.balance)))
                _
                (All-chips t terms.quick (max_chip N show fmt parse upper terms.balance)
                  (All-max_chip t terms.balance))
                (refl, tt),
          ),
        )

  -- The tickets that a visitor can bring about: by the clicks that the ticket offers, found by their
  -- place, and by typing a stake.
  pub data Session : Ticket N show fmt parse upper → Type 0 where
    opened : Session (fresh_ticket N show fmt parse upper)
    clicked :
        {t : Ticket N show fmt parse upper} (i : ℕ) (a : Action N show fmt parse upper)
        → get_elem? (clicks (bet_ticket N show fmt parse upper terms t)) i ≡ some a
        → Session t
        → Session (act N show fmt parse upper t a)
    typed :
        {t : Ticket N show fmt parse upper} (s : String)
        → Session t
        → Session (act N show fmt parse upper t (set_stake (typed_stake N show fmt parse upper s)))

  abbrev pub IsSide : String → Type 0
  IsSide s = (s ≡ "yes") ⊎ (s ≡ "no")

  -- What a stake at a price in percent pays back.
  abbrev pub pays : N.Num → N.Num → N.Num
  pays pct stake =
      if N.lt (N.of 0) pct then N.round (N.mul stake (N.div (N.of 100) pct)) else N.of 0

  -- The order is for yes with what its stake pays at the price of yes, or for no with what it pays at
  -- the price of no.
  abbrev pub IsPriced : Order N show fmt parse upper → Type 0
  IsPriced o =
      ((o.side ≡ "yes") × (o.payout ≡ pays terms.yes_pct o.stake))
      ⊎ ((o.side ≡ "no") × (o.payout ≡ pays terms.no_pct o.stake))

  record Fair (t : Ticket N show fmt parse upper) : Type 0 where
    side : IsSide t.side
    submitted : All IsPriced t.submitted

  order_of-IsPriced :
      (t : Ticket N show fmt parse upper)
      → IsSide t.side
      → IsPriced (order_of N show fmt parse upper terms t)
  unfolding order_of payout price
  order_of-IsPriced t (inl e) = inl (e, rw e refl)
  order_of-IsPriced t (inr e) = inr (e, rw e refl)

  act-Fair :
      (t : Ticket N show fmt parse upper) (a : Action N show fmt parse upper)
      → Allowed t a
      → Fair t
      → Fair (act N show fmt parse upper t a)
  unfolding act
  act-Fair t (set_side s) k h = record { side = k; submitted = h.submitted }
  act-Fair t (set_stake n) k h = record { side = h.side; submitted = h.submitted }
  act-Fair t (submit o) k h = record {
    side = h.side;
    submitted = (subst IsPriced (sym k) (order_of-IsPriced t h.side), h.submitted);
  }

  Session-Fair : (t : Ticket N show fmt parse upper) → Session t → Fair t
  unfolding fresh_ticket
  Session-Fair t opened = record { side = inl refl; submitted = tt }
  Session-Fair t (clicked {t = u} i a e s) =
      act-Fair u a
        (All-get_elem? (Allowed u) (clicks (bet_ticket N show fmt parse upper terms u)) i a
          (clicks-bet_ticket u) e)
        (Session-Fair u s)
  Session-Fair t (typed {t = u} s r) =
      act-Fair u (set_stake (typed_stake N show fmt parse upper s)) tt (Session-Fair u r)

  -- A click on the ticket that submits an order of this side and stake, at its price.
  abbrev pub Submits : Ticket N show fmt parse upper → Type 0
  Submits t =
      (i : ℕ) × (o : Order N show fmt parse upper) × (get_elem?
          (clicks (bet_ticket N show fmt parse upper terms t)) i
        ≡ some (submit o))
      × (o.side ≡ t.side)
      × (o.stake ≡ t.stake)
      × IsPriced o

  bet_ticket-submit :
      (t : Ticket N show fmt parse upper)
      → (i : ℕ) × (get_elem? (clicks (bet_ticket N show fmt parse upper terms t)) i
          ≡ some (submit (order_of N show fmt parse upper terms t)))
  unfolding bet_ticket card price_boxes price_box stake_field chips summary buy_button button
  bet_ticket-submit t =
      let shown = clicks_all (balance_text N show fmt parse upper terms.balance) in
      let quick = clicks_all (
        append (nodes (map (λ q. stake_chip N show fmt parse upper q (show q)) terms.quick))
          (max_chip N show fmt parse upper terms.balance)) in
      let (i, e) = placed_after quick _ _ (0, refl) in placed_after shown _ _ (suc (suc i), e)

  bet_ticket-Submits : (t : Ticket N show fmt parse upper) → IsSide t.side → Submits t
  unfolding order_of
  bet_ticket-Submits t h =
      let (i, e) = bet_ticket-submit t in
      (i, order_of N show fmt parse upper terms t, e, refl, refl, order_of-IsPriced t h)

-- In a ticket that a visitor brings about by clicks and by typing, the side is yes or no, a click
-- submits an order of that side and the stake, and that order and each one submitted before is for
-- yes with what its stake pays at the price of yes, or for no with what it pays at the price of no:
-- the stake at 100 to the price, rounded, and 0 unless the price is above 0.
pub Session-IsPriced :
    (N : Number) (show fmt : N.Num → String) (parse : String → N.Num) (upper : String → String)
    (terms : Terms N show fmt parse upper) (t : Ticket N show fmt parse upper)
    → Session N show fmt parse upper terms t
    → IsSide N show fmt parse upper terms t.side
      × Submits N show fmt parse upper terms t
      × All (IsPriced N show fmt parse upper terms) t.submitted
Session-IsPriced N show fmt parse upper terms t s =
    let fair = Session-Fair N show fmt parse upper terms t s in
    (fair.side, bet_ticket-Submits N show fmt parse upper terms t fair.side, fair.submitted)
