-- ===== src/Adivento/Orderbook.antt =====
-- `Adivento.orderbook` of app/assets/javascripts/adivento.js: the rows of an order book. Prices,
-- sizes and the spread, which may be negative, are the whole numbers that the server sends; the widths of the bars are JavaScript numbers.
pub mod Laws
mod Tests
use adivento.Base.{
  ℕ, zero, suc, ◌+◌, Bool, true, false, Option, none, some, List, [], ◌∷◌, ◌++◌, map, reverse,
  if◌then◌else◌, leb,
}
use adivento.Number.{Number}

-- `negsuc n` is -1 - n.
pub data ℤ : Type 0 where
  pos negsuc : ℕ → ℤ

pub data Side : Type 0 where
  ask bid : Side

-- An entry of `asks` or `bids`: price and size.
abbrev pub Level : Type 0
Level = ℕ × ℕ

pub record Book : Type 0 where
  pub asks : List Level
  pub bids : List Level
  pub spread : Option ℤ
  pub last : Option ℕ

-- `Math.max.apply(null, all) || 1`. With no entry the maximum is -Infinity, which no row reads; the
-- model has 1 there, as where all sizes are 0.
unfoldable pub largest : List Level → ℕ
largest [] = 0
largest (l ∷ ls) = let rest = largest ls in if leb rest l.1 then l.1 else rest

unfoldable pub nonzero : ℕ → ℕ
nonzero zero = 1
nonzero (suc n) = suc n

module _ (N : Number) where
  open N use {Num, of, mul, div}

  pub record Row : Type 0 where
    pub side : Side
    pub width : Num
    pub price : ℕ
    pub size : ℕ

  unfoldable pub row : ℕ → Side → Level → Row
  row most side l = record {
    side = side;
    width = mul (div (of l.1) (of most)) (of 100);
    price = l.0;
    size = l.1;
  }

  -- The markup: the asks from the last to the first, the line with the spread (`none` for the dash)
  -- and the last price, and the bids.
  pub record Markup : Type 0 where
    pub above : List Row
    pub spread : Option ℤ
    pub last : Option ℕ
    pub below : List Row

  -- `book.spread || "—"`
  pub spread_text : Option ℤ → Option ℤ
  spread_text none = none
  spread_text (some (pos zero)) = none
  spread_text (some (pos (suc n))) = some (pos (suc n))
  spread_text (some (negsuc n)) = some (negsuc n)

  unfoldable pub render : Book → Markup
  unfolding row largest nonzero spread_text
  render book =
      let most = nonzero (largest (book.asks ++ book.bids)) in
      record {
        above = map (row most ask) (reverse book.asks);
        spread = spread_text book.spread;
        last = book.last;
        below = map (row most bid) book.bids;
      }
