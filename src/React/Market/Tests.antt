-- ===== src/React/Market/Tests.antt =====
-- A book without sizes, a pool, the steps of a market, and the theorems at them.
use adivento.Base.{[], ◌∷◌, map, some, none, true, false, ◌≡◌, refl, arith}
use adivento.Number.{Between}
use adivento.Number.Exact.{exact, exact-IsIeee}
use adivento.Adivento.Orderbook.{Book, render}
use adivento.React.Market.{order_book, pool_bar, Step, settlement_steps}
use adivento.React.Market.Bars.{order_book-render, pool_bar-Between}

done :
    map (λ (s : Step). s.is_done) (settlement_steps "resolving") ≡ true ∷ true ∷ false ∷ false ∷ []
unfolding settlement_steps
done = refl

current :
    map (λ (s : Step). s.is_current) (settlement_steps "resolving")
    ≡ false ∷ false ∷ true ∷ false ∷ []
unfolding settlement_steps
current = refl

abbrev book : Book
book = record {
  asks = (57, 40) ∷ (58, 0) ∷ [];
  bids = (54, 80) ∷ [];
  spread = none;
  last = some 55;
}

order_book-render_example :
    ((order_book exact book).above ≡ (render exact book).above)
    × ((order_book exact book).below ≡ (render exact book).below)
order_book-render_example = order_book-render exact book

pool_bar-Between_example :
    Between exact 0 100 (pool_bar exact 30 10).yes_width
    × Between exact 0 100 (pool_bar exact 30 10).no_width
pool_bar-Between_example = pool_bar-Between exact exact-IsIeee 30 10 (omega arith)
