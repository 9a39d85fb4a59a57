-- ===== src/Adivento/Ticket.antt =====
-- `Adivento.ticket` of app/assets/javascripts/adivento.js: the calculator of a bet ticket.
pub mod Laws
mod Tests
use adivento.Base.{
  ℕ, zero, suc, Bool, true, false, not, ◌&&◌, Option, none, some, List, [], ◌∷◌, if◌then◌else◌,
  get_elem?,
}
use adivento.Number.{Number}

module _ (N : Number) where
  open N use {Num, of, sub, mul, div, le, is_nan, round}

  -- A price box: `parseFloat` of its `data-price`, and its class `is-selected`.
  pub record PriceBox : Type 0 where
    pub price : Num
    pub selected : Bool

  -- The ticket: `stake` is `parseFloat` of the input's value, `payout` and `profit` are the numbers
  -- shown; each is `none` if the block has no such element.
  pub record Ticket : Type 0 where
    pub boxes : List PriceBox
    pub stake : Option Num
    pub payout : Option Num
    pub profit : Option Num

  -- `root.querySelector(".ds-pricebox.is-selected")`
  pub first_selected : List PriceBox → Option PriceBox
  first_selected [] = none
  first_selected (b ∷ bs) = let rest = first_selected bs in if b.selected then some b else rest

  -- `… || root.querySelector(".ds-pricebox")`
  pub current_box : List PriceBox → Option PriceBox
  unfolding first_selected
  current_box bs = elim (first_selected bs) [ none ↦ get_elem? bs 0 | some b ↦ some b ]

  -- `price > 0`, which is false at NaN
  pub positive : Num → Bool
  positive a = le (of 0) a && not (le a (of 0))

  -- `parseFloat(stake && stake.value) || 0`
  pub stake_value : Option Num → Num
  stake_value none = of 0
  stake_value (some s) = if is_nan s then of 0 else s

  -- `price > 0 ? s * (100 / price) : 0`, where no box means NaN
  pub payout_of : Option PriceBox → Num → Num
  unfolding positive
  payout_of none s = of 0
  payout_of (some b) s = if positive b.price then mul s (div (of 100) b.price) else of 0

  -- Writes a number into an element, if the element is there.
  pub show : Num → Option Num → Option Num
  show v none = none
  show v (some old) = some v

  pub recalc : Ticket → Ticket
  unfolding current_box stake_value payout_of show
  recalc t =
      let s = stake_value t.stake in
      let payout = payout_of (current_box t.boxes) s in
      record t {
        payout = show (round payout) t.payout;
        profit = show (round (sub payout s)) t.profit;
      }

  pub unselect : List PriceBox → List PriceBox
  unselect [] = []
  unselect (b ∷ bs) = record b { selected = false } ∷ unselect bs

  pub select : ℕ → List PriceBox → List PriceBox
  select k [] = []
  select zero (b ∷ bs) = record b { selected = true } ∷ bs
  select (suc k) (b ∷ bs) = b ∷ select k bs

  -- What reaches the block: an input event with what the input then reads, a click on a price box,
  -- a click on a quick stake, a click elsewhere.
  pub data Event : Type 0 where
    input : Num → Event
    click_box : ℕ → Event
    click_quick : Num → Event
    click_other : Event

  -- `if (box) { … }`
  pub on_box : Option PriceBox → ℕ → Ticket → Ticket
  unfolding recalc unselect select
  on_box none k t = t
  on_box (some b) k t = recalc (record t { boxes = select k (unselect t.boxes) })

  -- `if (quick && stake) { … }`
  pub on_quick : Option Num → Num → Ticket → Ticket
  unfolding recalc
  on_quick none v t = t
  on_quick (some old) v t = recalc (record t { stake = some v })

  pub handle : Ticket → Event → Ticket
  unfolding recalc show on_box on_quick
  handle t (input v) = recalc (record t { stake = show v t.stake })
  handle t (click_box k) = on_box (get_elem? t.boxes k) k t
  handle t (click_quick v) = on_quick t.stake v t
  handle t click_other = t

  pub run : Ticket → List Event → Ticket
  run t [] = t
  run t (e ∷ es) = run (handle t e) es
