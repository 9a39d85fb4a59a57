-- ===== src/Adivento/Chart/Tests.antt =====
-- Drawings over whole numbers, and the theorems at them.
use adivento.Base.{
  ℕ, ◌^◌, String, true, Option, some, none, List, [], ◌∷◌, All, get_elem?, length, map, ◌≡◌, refl,
  arith,
}
use adivento.Number.Exact.{exact, exact-IsIeee}
use adivento.Adivento.Chart.{Point, Line, line, spark}
use adivento.Adivento.Chart.Box.{InBox, line-InBox}
use adivento.Adivento.Chart.Ends.{spark_one}
use adivento.Adivento.Chart.Listeners.{
  Svg, Document, theme_event, theme_events, init, draw_chart, read_values,
}
use adivento.Adivento.Chart.Listeners.Draws.{redrawn, resparked, theme_event-draws}

abbrev css : String → String
css name = ""

abbrev points : List (Option ℕ)
points = some 0 ∷ some 300 ∷ some 100 ∷ []

abbrev drawn : Line exact
drawn = record {
  color = "#0e7c66";
  grid_color = "#e7e3d6";
  area_opacity = "0.1";
  grid = some 120 ∷ some 120 ∷ some 120 ∷ [];
  area =
      (some 0, some 120)
      ∷ (some 0, some 120)
      ∷ (some 0, some 0)
      ∷ (some 300, some 0)
      ∷ (some 300, some 120)
      ∷ [];
  path = (some 0, some 120) ∷ (some 0, some 0) ∷ (some 300, some 0) ∷ [];
  circle = some (some 300, some 0);
}

line-points : line exact css points none ≡ some drawn
unfolding line
line-points = refl

line-InBox_example :
    All (InBox exact exact-IsIeee) drawn.path × All (InBox exact exact-IsIeee) drawn.area
unfolding line-points
line-InBox_example =
    line-InBox exact exact-IsIeee css points none {drawn = drawn} (omega arith)
      (refl, (refl, (refl, tt))) refl

spark_one_example :
    ((p : Point exact) × (get_elem? (spark exact css (some 40 ∷ []) none).path 0 ≡ some p)
      × (exact.is_nan p.0 ≡ true))
    × (line exact css (some 40 ∷ []) none ≡ none)
spark_one_example = spark_one exact exact-IsIeee css (some 40) none

abbrev number : List ℕ → Option ℕ
number piece = some (length piece)

abbrev chart : Svg (Line exact)
chart = record { values = some (b'1' ∷ b',' ∷ b'2' ∷ []); color = none; drawing = none; draws = 0 }

abbrev document : Document exact
document = record {
  charts = chart ∷ [];
  sparks = record { values = some (b'1' ∷ []); color = none; drawing = none; draws = 0 } ∷ [];
  listeners = 0;
}

theme_event-draws_example :
    ((theme_events exact number (css ∷ css ∷ []) (init exact number css document)).listeners
      ≡ 2 ^ 2)
    × ((theme_event exact number css
          (theme_events exact number (css ∷ css ∷ []) (init exact number css document))).charts
        ≡ map
            (redrawn exact number css (2 ^ 2))
            (theme_events exact number (css ∷ css ∷ []) (init exact number css document)).charts)
    × ((theme_event exact number css
          (theme_events exact number (css ∷ css ∷ []) (init exact number css document))).sparks
        ≡ map
            (resparked exact number css (2 ^ 2))
            (theme_events exact number (css ∷ css ∷ []) (init exact number css document)).sparks)
theme_event-draws_example = theme_event-draws exact number css (css ∷ css ∷ []) css document refl

-- The boot and three changes of the theme draw the chart 1 + 1 + 2 + 4 times.
drawn_eight_times :
    map
      (λ s. s.draws)
      (theme_events exact number (css ∷ css ∷ css ∷ []) (init exact number css document)).charts
    ≡ 8 ∷ []
unfolding theme_events theme_event init draw_chart line read_values
drawn_eight_times = refl
