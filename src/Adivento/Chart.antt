-- ===== src/Adivento/Chart.antt =====
-- `Adivento.chart` of app/assets/javascripts/adivento.js: probability lines and sparklines. The
-- markup is modelled by the elements and coordinates that it holds, not by its text.
pub mod Box
pub mod Ends
pub mod Listeners
mod Tests
use adivento.Base.{
  ℕ, zero, suc, ◌+◌, ◌-◌, String, Bool, true, false, not, Option, none, some, List, [], ◌∷◌, ◌++◌,
  map, filter, length, map_idx, if◌then◌else◌, truthy, ltb, ◌===◌, nat_eq, or_else,
}
use adivento.Number.{Number, min, max}

-- `v || fallback` of a trimmed CSS variable; `css` gives the computed values.
pub css_var : (String → String) → String → String → String
css_var css name fallback = if truthy (css name) then css name else fallback

-- `opts.color || cssVar(el, "--ds-accent", "#0e7c66")`
pub line_color : (String → String) → Option String → String
unfolding css_var
line_color css none = css_var css "--ds-accent" "#0e7c66"
line_color css (some c) = if truthy c then c else css_var css "--ds-accent" "#0e7c66"

-- The last entry of an array.
abbrev pub last? {ℓ} : {A : Type ℓ} → List A → Option A
last? [] = none
last? (x ∷ []) = some x
last? (x ∷ y ∷ xs) = last? (y ∷ xs)

module _ (N : Number) where
  open N use {Num, of, sub, mul, div, is_nan}

  abbrev pub Point : Type 0
  Point = Num × Num

  -- `(i / (n - 1)) * w`
  pub x_at : ℕ → ℕ → ℕ → Num
  x_at w n i = mul (div (of i) (of (n - 1))) (of w)

  -- `H - (Math.max(0, Math.min(100, v)) / 100) * H`
  pub y_at : Num → Num
  y_at v = sub (of 120) (mul (div (max N (of 0) (min N (of 100) v)) (of 100)) (of 120))

  unfoldable pub xy : List Num → List Point
  unfolding x_at y_at
  xy points = map_idx (λ i v. (x_at 300 (length points) i, y_at v)) 0 points

  -- `H - (g / 100) * H` for the grid lines
  pub grid_y : Num → Num
  grid_y g = sub (of 120) (mul (div g (of 100)) (of 120))

  pub record Line : Type 0 where
    pub color : String
    pub grid_color : String
    pub area_opacity : String
    pub grid : List Num
    pub area : List Point
    pub path : List Point
    pub circle : Option Point

  -- `line`: `none` is the early return, which leaves the element alone.
  unfoldable pub line : (String → String) → List Num → Option String → Option Line
  unfolding xy grid_y line_color css_var
  line css points color =
      if ltb (length points) 2
      then none
      else some (record {
        color = line_color css color;
        grid_color = css_var css "--ds-chart-grid" "#e7e3d6";
        area_opacity = css_var css "--ds-chart-area" "0.1";
        grid = map grid_y (of 25 ∷ of 50 ∷ of 75 ∷ []);
        area = (of 0, of 120) ∷ (xy points ++ (of 300, of 120) ∷ []);
        path = xy points;
        circle = last? (xy points);
      })

  pub record Spark : Type 0 where
    pub color : String
    pub path : List Point
    pub width : ℕ
    pub height : ℕ

  -- `spark`: there is no clamping and no early return.
  pub spark : (String → String) → List Num → Option String → Spark
  unfolding x_at line_color
  spark css points color = record {
    color = line_color css color;
    path =
        map_idx (λ i v. (x_at 72 (length points) i, sub (of 22) (mul (div v (of 100)) (of 22)))) 0
          points;
    width = 72;
    height = 22;
  }
