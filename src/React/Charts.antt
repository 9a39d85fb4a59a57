-- ===== src/React/Charts.antt =====
-- `points2path`, `Chart` and `Sparkline` of docs/design/system/react/charts.jsx. A path is the list of
-- its points; what the source writes into it and splits off again is a point.
pub mod Paths
mod Tests
use adivento.Base.{
  ℕ, ◌-◌, String, Bool, Option, none, some, List, [], ◌∷◌, ◌++◌, map, map_idx, length,
  if◌then◌else◌, ltb,
}
use adivento.Number.{Number, min, max}
use adivento.Adivento.Chart.{Point, last?}

module _ (N : Number) where
  open N use {Num, of, sub, mul, div}

  -- One entry of `points2path(points, W, H)` for n points
  pub path_point : ℕ → ℕ → ℕ → ℕ → Num → Point N
  path_point w h n i v = (
    mul (div (of i) (of (n - 1))) (of w),
    sub (of h) (mul (div (max N (of 0) (min N (of 100) v)) (of 100)) (of h)),
  )

  pub points2path : List Num → ℕ → ℕ → List (Point N)
  unfolding path_point
  points2path points w h = map_idx (path_point w h (length points)) 0 points

  -- What stands in the svg of a `Chart`, and whether the axis is shown.
  pub record Drawing : Type 0 where
    pub color : String
    pub grid : List Num
    pub area : List (Point N)
    pub path : List (Point N)
    pub circle : Option (Point N)
    pub axis : Bool

  -- `Chart`: `none` is the empty block for fewer than two points.
  pub chart : List Num → String → Bool → Option Drawing
  unfolding points2path
  chart points color show_axis =
      let path = points2path points 300 120 in
      if ltb (length points) 2
      then none
      else some (record {
        color = color;
        grid = map (λ g. sub (of 120) (mul (div g (of 100)) (of 120))) (of 25 ∷ of 50 ∷ of 75 ∷ []);
        area = (of 0, of 120) ∷ (path ++ (of 300, of 120) ∷ []);
        path = path;
        circle = last? path;
        axis = show_axis;
      })

  -- `Sparkline`: without clamping; `none` is `null`.
  pub spark_point : ℕ → ℕ → ℕ → ℕ → Num → Point N
  spark_point w h n i v =
      (mul (div (of i) (of (n - 1))) (of w), sub (of h) (mul (div v (of 100)) (of h)))

  pub sparkline : List Num → ℕ → ℕ → Option (List (Point N))
  unfolding spark_point
  sparkline points w h =
      if ltb (length points) 2
      then none
      else some (map_idx (spark_point w h (length points)) 0 points)
