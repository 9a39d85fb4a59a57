-- ===== src/React/Market.antt =====
-- `OrderBook`, `PoolBar` and `SettlementSteps` of docs/design/system/react/market.jsx. Prices, sizes
-- and amounts are whole numbers; the widths of bars are JavaScript numbers.
pub mod Bars
pub mod Cards
pub mod Ticket
mod Tests
use adivento.Base.{
  ℕ, zero, suc, ◌+◌, String, Bool, true, false, Option, none, some, List, [], ◌∷◌, ◌++◌, map,
  map_idx, reverse, index_of, string_eq, nat_eq, ◌===◌, if◌then◌else◌, leb, ltb,
}
use adivento.Number.{Number}
use adivento.Adivento.Orderbook.{Side, ask, bid, Level, Book, Row, Markup}

-- `Math.max(1, …)` over the sizes, from the greatest so far
pub max_size : ℕ → List Level → ℕ
max_size m [] = m
max_size m (l ∷ ls) = max_size (if leb m l.1 then l.1 else m) ls

-- `yesAmount + noAmount || 1`
pub pool_total : ℕ → ℕ → ℕ
pool_total y n = let t = y + n in if t === 0 then 1 else t

module _ (N : Number) where
  open N use {Num, of, sub, mul, div, round}

  -- `Row`
  pub book_row : ℕ → Side → Level → Row N
  book_row most side l = record {
    side = side;
    width = mul (div (of l.1) (of most)) (of 100);
    price = l.0;
    size = l.1;
  }

  -- `OrderBook`: a spread that is missing is shown as nothing.
  pub order_book : Book → Markup N
  unfolding max_size book_row
  order_book book =
      let most = max_size 1 (book.asks ++ book.bids) in
      record {
        above = map (book_row most ask) (reverse book.asks);
        spread = book.spread;
        last = book.last;
        below = map (book_row most bid) book.bids;
      }

  -- The two parts of the bar: the width in percent and the amount.
  pub record Pool : Type 0 where
    pub yes_width : Num
    pub yes_amount : ℕ
    pub no_width : Num
    pub no_amount : ℕ

  -- `PoolBar`
  pub pool_bar : ℕ → ℕ → Pool
  unfolding pool_total
  pool_bar y n =
      let yes_w = round (mul (div (of y) (of (pool_total y n))) (of 100)) in
      record { yes_width = yes_w; yes_amount = y; no_width = sub (of 100) yes_w; no_amount = n }

-- A step of `SettlementSteps`: its texts, and the classes `is-done` and `is-current`.
pub record Step : Type 0 where
  pub label : String
  pub sub : String
  pub is_done : Bool
  pub is_current : Bool

abbrev pub stages : List String
stages = "open" ∷ "closed" ∷ "resolving" ∷ "settled" ∷ []

abbrev pub step_texts : List (String × String)
step_texts =
    ("Open", "trading live")
    ∷ ("Closes", "at deadline")
    ∷ ("Resolves", "source checked")
    ∷ ("Settles", "payouts sent")
    ∷ []

-- An unknown stage has the index -1, which no step is at or before.
pub step_at : Option ℕ → ℕ → String × String → Step
step_at none i t = record { label = t.0; sub = t.1; is_done = false; is_current = false }
step_at (some k) i t = record { label = t.0; sub = t.1; is_done = ltb i k; is_current = i === k }

-- `SettlementSteps`
pub settlement_steps : String → List Step
unfolding step_at
settlement_steps stage = map_idx (step_at (index_of stages stage)) 0 step_texts
