-- ===== src/Adivento/Chart/Ends.antt =====
-- Where a line begins and ends, and how it goes with its values.
use adivento.Base.{
  ℕ, suc, ◌+◌, ◌-◌, ◌≤◌, true, false, Option, none, some, List, [], ◌∷◌, length, get_elem?, map_idx,
  ◌≡◌, refl, arith, ◌∙◌, ap, ap₂, some-injective, String,
}
use adivento.Number.{Number, safe, Le, Between, min, max, IsIeee}
use adivento.Number.Order.{
  clamp-Between, ratio-Between, scale-Between, Between-widen, div_self, zero-div, zero-mul, one-mul,
  clamp-of, clamp_mono,
}
use adivento.Adivento.Chart.{Point, x_at, y_at, xy, line, Line, last?, spark}
use adivento.Adivento.Chart.Box.{line-drawn}

module _ (N : Number) (I : IsIeee N) where
  open N use {Num, of, sub, mul, div, is_nan}

  x_at-zero : (w n : ℕ) → 2 ≤ n → n ≤ safe → x_at N w n 0 ≡ of 0
  unfolding x_at
  x_at-zero w n two s =
      ap (λ z. mul z (of w)) (zero-div N I (n - 1) (omega arith) (omega arith)) ∙ zero-mul N I w

  x_at-last : (w n : ℕ) → 2 ≤ n → n ≤ safe → w ≤ safe → x_at N w n (n - 1) ≡ of w
  unfolding x_at
  x_at-last w n two s ws =
      ap (λ z. mul z (of w)) (div_self N I (n - 1) (omega arith) (omega arith)) ∙ one-mul N I w ws

  y_at_full : y_at N (of 100) ≡ of 0
  unfolding y_at
  y_at_full =
      ap (λ c. sub (of 120) (mul (div c (of 100)) (of 120)))
        (clamp-of N I 100 100 (omega arith) (omega arith))
      ∙ ap (λ q. sub (of 120) (mul q (of 120))) (div_self N I 100 (omega arith) (omega arith))
      ∙ ap (λ t. sub (of 120) t) (one-mul N I 120 (omega arith))
      ∙ I.sub_of 120 120 (omega arith) (omega arith)

  y_at_empty : y_at N (of 0) ≡ of 120
  unfolding y_at
  y_at_empty =
      ap (λ c. sub (of 120) (mul (div c (of 100)) (of 120)))
        (clamp-of N I 100 0 (omega arith) (omega arith))
      ∙ ap (λ q. sub (of 120) (mul q (of 120))) (zero-div N I 100 (omega arith) (omega arith))
      ∙ ap (λ t. sub (of 120) t) (zero-mul N I 120)
      ∙ I.sub_of 120 0 (omega arith) (omega arith)

  share : Num → Num
  share u = max N (of 0) (min N (of 100) u)

  share-Between : (u : Num) → is_nan u ≡ false → Between N 0 100 (share u)
  unfolding share
  share-Between u k = clamp-Between N I 100 u (omega arith) k

  part-Between : (u : Num) → is_nan u ≡ false → Between N 0 1 (div (share u) (of 100))
  part-Between u k = ratio-Between N I 100 (share u) (omega arith) (omega arith) (share-Between u k)

  y_at-le : (v w : Num) → Le N v w → Le N (y_at N w) (y_at N v)
  unfolding y_at share
  y_at-le v w h =
      let (kv, kw) = I.not_nan v w h in
      let wide = λ (hi : ℕ) (a : Num) (le : hi ≤ safe) (b : Between N 0 hi a).
        Between-widen N I hi safe a le (omega arith) b in
      I.sub_mono 120 (mul (div (share v) (of 100)) (of 120)) (mul (div (share w) (of 100)) (of 120))
        (omega arith)
        (wide 120 _ (omega arith) (scale-Between N I 120 _ (omega arith) (part-Between v kv)))
        (wide 120 _ (omega arith) (scale-Between N I 120 _ (omega arith) (part-Between w kw)))
        (I.mul_mono 120 _ _ (omega arith) (wide 1 _ (omega arith) (part-Between v kv))
          (wide 1 _ (omega arith) (part-Between w kw))
          (I.div_mono 100 _ _ (omega arith) (omega arith)
            (wide 100 _ (omega arith) (share-Between v kv))
            (wide 100 _ (omega arith) (share-Between w kw)) (clamp_mono N I 100 v w h)))

  -- A larger probability is never drawn lower; 0 is drawn at the bottom and 100 at the top.
  pub y_at_antitone :
      (v w : Num)
      → Le N v w
      → Le N (y_at N w) (y_at N v) × (y_at N (of 0) ≡ of 120) × (y_at N (of 100) ≡ of 0)
  y_at_antitone v w h = (y_at-le v w h, y_at_empty, y_at_full)

  last?-map_idx :
      (f : ℕ → Num → Point N) (i : ℕ) (points : List Num) (u : Num)
      → last? points ≡ some u
      → last? (map_idx f i points) ≡ some (f (i + length points - 1) u)
  last?-map_idx f i [] u h = cc
  last?-map_idx f i (v ∷ []) u h = ap some (ap₂ f (omega arith) (some-injective _ _ h))
  last?-map_idx f i (v ∷ w ∷ vs) u h =
      last?-map_idx f (suc i) (w ∷ vs) u h ∙ ap (λ k. some (f k u)) (omega arith)

  head-xy :
      (points : List Num) (v : Num)
      → 2 ≤ length points
      → length points ≤ safe
      → get_elem? points 0 ≡ some v
      → get_elem? (xy N points) 0 ≡ some (of 0, y_at N v)
  unfolding xy
  head-xy [] v two s h = cc
  head-xy (w ∷ ws) v two s h =
      ap some (ap₂ (λ x y. (x, y)) (x_at-zero 300 _ two s) (ap (y_at N) (some-injective _ _ h)))

  last-xy :
      (points : List Num) (u : Num)
      → 2 ≤ length points
      → length points ≤ safe
      → last? points ≡ some u
      → last? (xy N points) ≡ some (of 300, y_at N u)
  unfolding xy
  last-xy points u two s h =
      last?-map_idx _ 0 points u h
      ∙ ap (λ k. some (x_at N 300 (length points) k, y_at N u)) (omega arith)
      ∙ ap (λ x. some (x, y_at N u)) (x_at-last 300 (length points) two s (omega arith))

  -- The first point of a line stands at the left edge and the last one, with the circle, at the
  -- right edge; each is as high as its own value.
  pub line_ends :
      (css : String → String) (points : List Num) (color : Option String) {drawn : Line N}
      {v u : Num}
      → length points ≤ safe
      → line N css points color ≡ some drawn
      → get_elem? points 0 ≡ some v
      → last? points ≡ some u
      → (get_elem? drawn.path 0 ≡ some (of 0, y_at N v)) × (drawn.circle ≡ some (of 300, y_at N u))
  line_ends css points color {drawn} {v} {u} s e hv hu =
      let (two, p, _, c) = line-drawn N I css points color drawn e in
      (rw p (head-xy points v two s hv), c ∙ last-xy points u two s hu)

  -- A defect: a sparkline of one value is drawn with the abscissa NaN, for 0 is divided by 0. A
  -- line of one value is not drawn.
  pub spark_one :
      (css : String → String) (v : Num) (color : Option String)
      → ((p : Point N) × (get_elem? (spark N css (v ∷ []) color).path 0 ≡ some p)
          × (is_nan p.0 ≡ true))
        × (line N css (v ∷ []) color ≡ none)
  unfolding spark x_at line
  spark_one css v color = ((_, refl, I.nan_mul _ _ I.zero_div_zero), refl)
