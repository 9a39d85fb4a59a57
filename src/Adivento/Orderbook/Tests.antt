-- ===== src/Adivento/Orderbook/Tests.antt =====
-- A small book, and the theorems at it.
use adivento.Base.{some, [], ◌∷◌, map, All, ◌≡◌, refl, arith}
use adivento.Number.Exact.{exact, exact-IsIeee}
use adivento.Adivento.Orderbook.{Book, negsuc, render}
use adivento.Adivento.Orderbook.Laws.{Fits, level, render-Fits}

abbrev book : Book
book = record {
  asks = (57, 40) ∷ (58, 20) ∷ [];
  bids = (54, 80) ∷ (53, 10) ∷ [];
  spread = some (negsuc 2);
  last = some 55;
}

below-book : map (level exact exact-IsIeee) (render exact book).below ≡ (54, 80) ∷ (53, 10) ∷ []
unfolding render
below-book = refl

render-Fits_example :
    All (Fits exact exact-IsIeee) (render exact book).above
    × All (Fits exact exact-IsIeee) (render exact book).below
render-Fits_example = render-Fits exact exact-IsIeee book (omega arith)
