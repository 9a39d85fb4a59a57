-- ===== src/React/Market/Bars.antt =====
-- The bars of the order book and of the pool.
use adivento.Base.{
  ℕ, zero, suc, ◌+◌, ◌≤◌, List, [], ◌∷◌, ◌++◌, map, reverse, nat_eq, if◌then◌else◌, leb, ◌≡◌, refl,
  ap, ◌∙◌, arith, subst,
}
use adivento.Number.{Number, safe, Le, Between, IsIeee}
use adivento.Number.Order.{le_of_nat, ratio-Between, scale-Between, rest-Between}
use adivento.Adivento.Orderbook.{ask, bid, Level, Book, largest, nonzero, row, render}
use adivento.React.Market.{max_size, pool_total, book_row, order_book, pool_bar}

max_size-largest :
    (m : ℕ) (ls : List Level) → max_size m ls ≡ (if leb m (largest ls) then largest ls else m)
unfolding max_size largest
max_size-largest m [] = ground arith
max_size-largest m (l ∷ ls) = max_size-largest (if leb m l.1 then l.1 else m) ls ∙ ground arith

max_size-nonzero : (ls : List Level) → max_size 1 ls ≡ nonzero (largest ls)
unfolding nonzero
max_size-nonzero ls = max_size-largest 1 ls ∙ at_least_one (largest ls)
  where
    at_least_one : (n : ℕ) → (if leb 1 n then n else 1) ≡ nonzero n
    at_least_one zero = refl
    at_least_one (suc n) = ground arith

pool_total-bounds :
    (y n top : ℕ)
    → y + n ≤ top
    → 1 ≤ top
    → (y ≤ pool_total y n) × (1 ≤ pool_total y n) × (pool_total y n ≤ top)
unfolding pool_total
pool_total-bounds y n top h k = ground arith

module _ (N : Number) where
  -- The React order book shows the same rows as `Adivento.orderbook.render`, with the same bars, also
  -- where the book is empty or all its sizes are 0.
  pub order_book-render :
      (book : Book)
      → ((order_book N book).above ≡ (render N book).above)
        × ((order_book N book).below ≡ (render N book).below)
  unfolding order_book render book_row row
  order_book-render book =
      let most = max_size-nonzero (book.asks ++ book.bids) in
      (
        ap (λ m. map (row N m ask) (reverse book.asks)) most,
        ap (λ m. map (row N m bid) book.bids) most,
      )

  module _ (I : IsIeee N) where
    round-Between : (k : ℕ) (a : N.Num) → k ≤ safe → Between N 0 k a → Between N 0 k (N.round a)
    round-Between k a s b = (
      subst (λ z. Le N z (N.round a)) (I.round_of 0 (omega arith)) (I.round_mono (N.of 0) a b.0),
      subst (Le N (N.round a)) (I.round_of k s) (I.round_mono a (N.of k) b.1),
    )

    -- For amounts whose sum is a safe integer, both widths are from 0 to 100 percent, also for an
    -- empty pool.
    pub pool_bar-Between :
        (y n : ℕ)
        → y + n ≤ safe
        → Between N 0 100 (pool_bar N y n).yes_width × Between N 0 100 (pool_bar N y n).no_width
    unfolding pool_bar
    pool_bar-Between y n s =
        let (le, pos, top) = pool_total-bounds y n safe s (omega arith) in
        let t = pool_total y n in
        let part =
          ratio-Between N I t (N.of y) pos top
            (le_of_nat N I 0 y (omega arith) (omega arith), le_of_nat N I y t le top) in
        let yes = round-Between 100 _ (omega arith) (scale-Between N I 100 _ (omega arith) part) in
        (yes, rest-Between N I 100 _ (omega arith) yes)
