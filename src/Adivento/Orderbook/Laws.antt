-- ===== src/Adivento/Orderbook/Laws.antt =====
-- The bars and the levels of a rendered book.
use adivento.Base.{
  ℕ, zero, suc, ◌≤◌, some, List, [], ◌∷◌, ◌++◌, map, reverse, All, All-map, All-reverse,
  All-append_left, All-append_right, get_elem?, some-injective, ◌≡◌, refl, arith, ap, ◌∙◌,
}
use adivento.Number.{Number, safe, Between, IsIeee}
use adivento.Number.Order.{le_of_nat, ratio-Between, scale-Between, div_self, one-mul}
use adivento.Adivento.Orderbook.{Side, ask, bid, Level, Book, largest, nonzero, Row, row, render}

largest-le : (n : ℕ) (ls : List Level) → All (λ l. l.1 ≤ n) ls → largest ls ≤ n
unfolding largest
largest-le n [] h = omega arith
largest-le n (l ∷ ls) h = ground (arith, largest-le n ls h.1)

le-largest : (n : ℕ) (ls : List Level) → largest ls ≤ n → All (λ l. l.1 ≤ n) ls
unfolding largest
le-largest n [] h = tt
le-largest n (l ∷ ls) h = (ground arith, le-largest n ls (ground arith))

nonzero-bounds : (m n : ℕ) → m ≤ n → 1 ≤ n → (m ≤ nonzero m) × (1 ≤ nonzero m) × (nonzero m ≤ n)
unfolding nonzero
nonzero-bounds zero n h k = omega arith
nonzero-bounds (suc m) n h k = omega arith

-- The size that fills a whole bar.
unfoldable pub most : Book → ℕ
unfolding nonzero largest
most book = nonzero (largest (book.asks ++ book.bids))

module _ (N : Number) (I : IsIeee N) where
  open N use {Num, of, mul, div}

  row-Between :
      (m : ℕ) (side : Side) (l : Level)
      → 1 ≤ m
      → m ≤ safe
      → l.1 ≤ m
      → Between N 0 100 (row N m side l).width
  unfolding row
  row-Between m side l pos s h = scale-Between N I 100 _ (omega arith) (
      ratio-Between N I m (of l.1) pos s
        (le_of_nat N I 0 l.1 (omega arith) (omega arith), le_of_nat N I l.1 m h s))

  abbrev pub Fits : Row N → Type 0
  Fits r = Between N 0 100 r.width

  -- In a book whose sizes are safe integers every bar has a width from 0 to 100 percent.
  pub render-Fits :
      (book : Book)
      → All (λ l. l.1 ≤ safe) (book.asks ++ book.bids)
      → All Fits (render N book).above × All Fits (render N book).below
  unfolding render most
  render-Fits book h =
      let all = book.asks ++ book.bids in
      let m = nonzero (largest all) in
      let (le, pos, s) = nonzero-bounds (largest all) safe (largest-le safe all h) (omega arith) in
      let fits = le-largest m all le in
      (
        All-map (λ (l : Level). l.1 ≤ m) Fits (row N m ask) (reverse book.asks)
            (λ l. row-Between m ask l pos s)
            (All-reverse (λ (l : Level). l.1 ≤ m) book.asks
              (All-append_left _ book.asks book.bids fits)),
        All-map (λ (l : Level). l.1 ≤ m) Fits (row N m bid) book.bids
            (λ l. row-Between m bid l pos s) (All-append_right _ book.asks book.bids fits),
      )

  row-full :
      (m : ℕ) (side : Side) (l : Level)
      → 1 ≤ m
      → m ≤ safe
      → l.1 ≡ m
      → (row N m side l).width ≡ of 100
  unfolding row
  row-full m side l pos s e =
      rw e (ap (λ q. mul q (of 100)) (div_self N I m pos s) ∙ one-mul N I 100 (omega arith))

  abbrev pub level : Row N → Level
  level r = (r.price, r.size)

  map-level-row : (m : ℕ) (side : Side) (ls : List Level) → map level (map (row N m side) ls) ≡ ls
  unfolding row
  map-level-row m side [] = refl
  map-level-row m side (l ∷ ls) = ap (λ rest. l ∷ rest) (map-level-row m side ls)

  -- No level is lost, added or reordered: from top to bottom stand the asks from the last to the
  -- first and the bids from the first to the last.
  pub render-levels :
      (book : Book)
      → (map level (render N book).above ≡ reverse book.asks)
        × (map level (render N book).below ≡ book.bids)
  unfolding render
  render-levels book = (map-level-row _ ask (reverse book.asks), map-level-row _ bid book.bids)

  get_elem?-map :
      (f : Level → Row N) (ls : List Level) (i : ℕ) (l : Level)
      → get_elem? ls i ≡ some l
      → get_elem? (map f ls) i ≡ some (f l)
  get_elem?-map f [] i l h = cc
  get_elem?-map f (k ∷ ls) zero l h = ap some (ap f (some-injective _ _ h))
  get_elem?-map f (k ∷ ls) (suc i) l h = get_elem?-map f ls i l h

  -- A bid of the greatest size in the book, if that is not 0, fills its row.
  pub render-full :
      (book : Book) (i : ℕ) {l : Level}
      → All (λ k. k.1 ≤ safe) (book.asks ++ book.bids)
      → get_elem? book.bids i ≡ some l
      → l.1 ≡ most book
      → (r : Row N) × (get_elem? (render N book).below i ≡ some r) × (r.width ≡ of 100)
  unfolding render most
  render-full book i {l} h at e =
      let all = book.asks ++ book.bids in
      let m = nonzero (largest all) in
      let (_, pos, s) = nonzero-bounds (largest all) safe (largest-le safe all h) (omega arith) in
      (row N m bid l, get_elem?-map (row N m bid) book.bids i l at, row-full m bid l pos s e)
