-- ===== src/Adivento/Ticket/Laws.antt =====
-- The numbers that a ticket shows, over its events.
use adivento.Base.{
  ℕ, zero, suc, true, false, Option, none, some, List, [], ◌∷◌, AllSome, ◌≡◌, refl, arith, subst,
  get_elem?, ◌===◌, ===_iff, nat_eq, ◌↔◌,
}
use adivento.Number.{Number}
use adivento.Adivento.Ticket.{
  PriceBox, Ticket, first_selected, current_box, stake_value, payout_of, show, recalc, on_box,
  on_quick, unselect, select, Event, input, click_box, click_quick, click_other, handle, run,
}

module _ (N : Number) where
  open N use {Num, of, sub, mul, div, le, is_nan, round}

  -- The elements that are there show the payout and the profit of this price box and stake.
  pub record Shows (b : Option (PriceBox N)) (s : Num) (t : Ticket N) : Type 0 where
    pub payout : AllSome (λ v. v ≡ round (payout_of N b s)) t.payout
    pub profit : AllSome (λ v. v ≡ round (sub (payout_of N b s) s)) t.profit

  abbrev pub IsFresh : Ticket N → Type 0
  IsFresh t = Shows (current_box N t.boxes) (stake_value N t.stake) t

  AllSome-show : (v : Num) (o : Option Num) → AllSome (λ w. w ≡ v) (show N v o)
  unfolding show
  AllSome-show v none = tt
  AllSome-show v (some old) = refl

  recalc-IsFresh : (t : Ticket N) → IsFresh (recalc N t)
  unfolding recalc
  recalc-IsFresh t = record { payout = AllSome-show _ t.payout; profit = AllSome-show _ t.profit }

  on_box-IsFresh :
      (o : Option (PriceBox N)) (k : ℕ) (t : Ticket N) → IsFresh t → IsFresh (on_box N o k t)
  unfolding on_box
  on_box-IsFresh none k t h = h
  on_box-IsFresh (some b) k t h = recalc-IsFresh _

  on_quick-IsFresh :
      (o : Option Num) (v : Num) (t : Ticket N) → IsFresh t → IsFresh (on_quick N o v t)
  unfolding on_quick
  on_quick-IsFresh none v t h = h
  on_quick-IsFresh (some old) v t h = recalc-IsFresh _

  handle-IsFresh : (t : Ticket N) (e : Event N) → IsFresh t → IsFresh (handle N t e)
  unfolding handle
  handle-IsFresh t (input v) h = recalc-IsFresh _
  handle-IsFresh t (click_box k) h = on_box-IsFresh (get_elem? t.boxes k) k t h
  handle-IsFresh t (click_quick v) h = on_quick-IsFresh t.stake v t h
  handle-IsFresh t click_other h = h

  run_from-IsFresh : (es : List (Event N)) (t : Ticket N) → IsFresh t → IsFresh (run N t es)
  unfolding run
  run_from-IsFresh [] t h = h
  run_from-IsFresh (e ∷ es) t h = run_from-IsFresh es (handle N t e) (handle-IsFresh t e h)

  -- From the first calculation on, after any events, the payout and the profit that stand in the
  -- ticket are those of the price box that is selected (the first one if none is) and the stake
  -- that is entered then.
  pub run-IsFresh : (t : Ticket N) (es : List (Event N)) → IsFresh (run N (recalc N t) es)
  run-IsFresh t es = run_from-IsFresh es (recalc N t) (recalc-IsFresh t)

  first_selected-unselect : (bs : List (PriceBox N)) → first_selected N (unselect N bs) ≡ none
  unfolding first_selected unselect
  first_selected-unselect [] = refl
  first_selected-unselect (b ∷ bs) = first_selected-unselect bs

  first_selected-select :
      (k : ℕ) (bs : List (PriceBox N)) (b : PriceBox N)
      → get_elem? bs k ≡ some b
      → first_selected N (select N k (unselect N bs)) ≡ some (record b { selected = true })
  unfolding first_selected unselect select
  first_selected-select k [] b h = cc
  first_selected-select zero (c ∷ bs) b h = ground arith
  first_selected-select (suc k) (c ∷ bs) b h = first_selected-select k bs b h

  get_elem?-unselect :
      (i : ℕ) (bs : List (PriceBox N)) (b : PriceBox N)
      → get_elem? bs i ≡ some b
      → get_elem? (unselect N bs) i ≡ some (record b { selected = false })
  unfolding unselect
  get_elem?-unselect i [] b h = cc
  get_elem?-unselect zero (c ∷ bs) b h = ground arith
  get_elem?-unselect (suc i) (c ∷ bs) b h = get_elem?-unselect i bs b h

  get_elem?-select :
      (k i : ℕ) (bs : List (PriceBox N)) (b : PriceBox N)
      → get_elem? bs i ≡ some b
      → get_elem? (select N k (unselect N bs)) i ≡ some (record b { selected = k === i })
  unfolding select unselect
  get_elem?-select k i [] b h = cc
  get_elem?-select zero zero (c ∷ bs) b h = ground arith
  get_elem?-select zero (suc i) (c ∷ bs) b h = ground (arith, get_elem?-unselect i bs b h)
  get_elem?-select (suc k) zero (c ∷ bs) b h = ground arith
  get_elem?-select (suc k) (suc i) (c ∷ bs) b h = ground (arith, get_elem?-select k i bs b h)

  current_box-select :
      (k : ℕ) (bs : List (PriceBox N)) (b : PriceBox N)
      → get_elem? bs k ≡ some b
      → current_box N (select N k (unselect N bs)) ≡ some (record b { selected = true })
  unfolding current_box
  current_box-select k bs b h = ground (arith, first_selected-select k bs b h)

  recalc-Shows :
      (o : Option (PriceBox N)) (t : Ticket N)
      → current_box N t.boxes ≡ o
      → Shows o (stake_value N t.stake) (recalc N t)
  unfolding recalc
  recalc-Shows o t e =
      subst (λ b. Shows b (stake_value N t.stake) (recalc N t)) e (recalc-IsFresh t)

  -- A click on a price box selects it and no other, keeps the prices and the stake, and the numbers
  -- shown are those of its price.
  pub click_box-Shows :
      (t : Ticket N) (k i : ℕ) {b c : PriceBox N}
      → get_elem? t.boxes k ≡ some b
      → get_elem? t.boxes i ≡ some c
      → ((d : PriceBox N) × (get_elem? (handle N t (click_box k)).boxes i ≡ some d)
          × ((d.selected ≡ true) ↔ (k ≡ i))
          × (d.price ≡ c.price))
        × Shows
            (some (record b { selected = true }))
            (stake_value N t.stake)
            (handle N t (click_box k))
  unfolding handle
  click_box-Shows t k i {b} {c} hk hi = (
    (
      record c { selected = k === i },
      rw (hk, get_elem?-select k i t.boxes c hi),
      ===_iff k i,
      refl,
    ),
    rw (hk, on_box)
        (recalc-Shows _ (record t { boxes = select N k (unselect N t.boxes) })
          (current_box-select k t.boxes b hk)),
  )
