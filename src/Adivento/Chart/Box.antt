-- ===== src/Adivento/Chart/Box.antt =====
-- The points of a line and the box that it is drawn in.
use adivento.Base.{
  ℕ, suc, ◌+◌, ◌-◌, ◌≤◌, ◌<◌, false, Option, some, List, [], ◌∷◌, ◌++◌, length, map_idx, All, ◌≡◌,
  arith, String,
}
use adivento.Number.{Number, safe, Between, IsIeee}
use adivento.Number.Order.{le_of_nat, clamp-Between, ratio-Between, scale-Between, rest-Between}
use adivento.Adivento.Chart.{Point, x_at, y_at, xy, line, Line, last?}

module _ (N : Number) (I : IsIeee N) where
  open N use {Num, of, sub, mul, div, is_nan}

  x_at-Between : (w n i : ℕ) → 2 ≤ n → n ≤ safe → i < n → w ≤ safe → Between N 0 w (x_at N w n i)
  unfolding x_at
  x_at-Between w n i two s lt ws = scale-Between N I w _ ws (
      ratio-Between N I (n - 1) (of i) (omega arith) (omega arith) (
        le_of_nat N I 0 i (omega arith) (omega arith),
        le_of_nat N I i (n - 1) (omega arith) (omega arith),
      ))

  y_at-Between : (v : Num) → is_nan v ≡ false → Between N 0 120 (y_at N v)
  unfolding y_at
  y_at-Between v h = rest-Between N I 120 _ (omega arith) (
      scale-Between N I 120 _ (omega arith) (
        ratio-Between N I 100 _ (omega arith) (omega arith)
          (clamp-Between N I 100 v (omega arith) h)))

  abbrev pub InBox : Point N → Type 0
  InBox p = Between N 0 300 p.0 × Between N 0 120 p.1

  xy_from :
      (n i : ℕ) (points : List Num)
      → 2 ≤ n
      → n ≤ safe
      → i + length points ≤ n
      → All (λ v. is_nan v ≡ false) points
      → All InBox (map_idx (λ j v. (x_at N 300 n j, y_at N v)) i points)
  xy_from n i [] two s le h = tt
  xy_from n i (v ∷ vs) two s le h = (
    (x_at-Between 300 n i two s (omega arith) (omega arith), y_at-Between v h.0),
    xy_from n (suc i) vs two s (omega arith) h.1,
  )

  pub line-drawn :
      (css : String → String) (points : List Num) (color : Option String) (drawn : Line N)
      → line N css points color ≡ some drawn
      → (2 ≤ length points)
        × (drawn.path ≡ xy N points)
        × (drawn.area ≡ (of 0, of 120) ∷ (xy N points ++ (of 300, of 120) ∷ []))
        × (drawn.circle ≡ last? (xy N points))
  unfolding line
  line-drawn css points color drawn e = ground arith

  All-append : (ps qs : List (Point N)) → All InBox ps → All InBox qs → All InBox (ps ++ qs)
  All-append [] qs hp hq = hq
  All-append (p ∷ ps) qs hp hq = (hp.0, All-append ps qs hp.1 hq)

  corner : (w : ℕ) → w ≤ 300 → InBox (of w, of 120)
  corner w h = (
    (le_of_nat N I 0 w (omega arith) (omega arith), le_of_nat N I w 300 h (omega arith)),
    (
      le_of_nat N I 0 120 (omega arith) (omega arith),
      le_of_nat N I 120 120 (omega arith) (omega arith),
    ),
  )

  xy-InBox :
      (points : List Num)
      → 2 ≤ length points
      → length points ≤ safe
      → All (λ v. is_nan v ≡ false) points
      → All InBox (xy N points)
  unfolding xy
  xy-InBox points two s h = xy_from (length points) 0 points two s (omega arith) h

  -- A line that is drawn has all its points in the box of 300 by 120, whatever the values are, if
  -- none of them is NaN and their number is a safe integer.
  pub line-InBox :
      (css : String → String) (points : List Num) (color : Option String) {drawn : Line N}
      → length points ≤ safe
      → All (λ v. is_nan v ≡ false) points
      → line N css points color ≡ some drawn
      → All InBox drawn.path × All InBox drawn.area
  line-InBox css points color {drawn} s h e =
      let (two, p, a, _) = line-drawn css points color drawn e in
      let inside = xy-InBox points two s h in
      (
        rw p inside,
        rw a (
          corner 0 (omega arith),
          All-append (xy N points) _ inside (corner 300 (omega arith), tt),
        ),
      )
