-- ===== src/Wireframe/Kit/Charts.antt =====
-- docs/design/wireframes/v2/wireframe-kit.jsx: `Chart` and `Sparkline`.
use Prim.Native.String.{◌++◌ as cat}
use adivento.Base.{
  ℕ, Option, none, some, List, [], ◌∷◌, map, map_idx, if◌then◌else◌, nat_beq, String, or_else, join,
  length,
}
use adivento.Number.{Number}
use adivento.Markup.{
  Value, str, num, Style, Node, element, nil, nodes, append, drawn, both, one, said, no_props,
}
use adivento.Wireframe.Kit.{accent}

-- `points[n - 1]`
abbrev pub last_of : {A : Type 0} → List A → Option A
last_of [] = none
last_of (x ∷ []) = some x
last_of (x ∷ y ∷ ys) = last_of (y ∷ ys)

-- `show` is the text of a number in a template, and `not_a_number` is NaN.
module _ (N : Number) (show : N.Num → String) (not_a_number : N.Num) where
  open N use {Num, of, sub, mul, div}

  -- `n - 1`, for the number of points: -1 where there are none, and then no point is drawn.
  abbrev steps : List Num → Num
  steps points = sub (of (length points)) (of 1)

  -- `` `${(i / (n - 1)) * w},${h - (v / 100) * h}` ``
  point : Num → Num → Num → ℕ → Num → String
  point w h last i v =
      cat (show (mul (div (of i) last) w)) (cat "," (show (sub h (mul (div v (of 100)) h))))

  pts : Num → Num → List Num → String
  unfolding point join
  pts w h points = join " " (map_idx (point w h (steps points)) 0 points)

  -- `H - (g / 100) * H`
  height_of : Num → Num
  height_of v = sub (of 120) (mul (div v (of 100)) (of 120))

  abbrev sample_points : List Num
  sample_points = map of (50 ∷ 48 ∷ 54 ∷ 52 ∷ 60 ∷ 57 ∷ 63 ∷ 61 ∷ 66 ∷ 62 ∷ [])

  abbrev default_frames : List String
  default_frames = "1H" ∷ "6H" ∷ "1D" ∷ "1W" ∷ "ALL" ∷ []

  module _ {A : Type 0} where
    grid_line : ℕ → Node A
    unfolding height_of
    grid_line g =
        element "line"
          (record no_props {
            attributes =
                ("x1", str "0")
                ∷ ("x2", num "300")
                ∷ ("y1", num (show (height_of (of g))))
                ∷ ("y2", num (show (height_of (of g))))
                ∷ ("stroke", str "#e6e4de")
                ∷ ("strokeWidth", str "1")
                ∷ ("strokeDasharray", str "3 3")
                ∷ [];
          })
          nil

    -- The dot at the last point; without points its height is NaN.
    dot : Value → Option Num → Node A
    unfolding height_of
    dot color end =
        element "circle"
          (record no_props {
            attributes =
                ("cx", num "300")
                ∷ ("cy", num (show (height_of (or_else end not_a_number))))
                ∷ ("r", str "3.5")
                ∷ ("fill", color)
                ∷ [];
          })
          nil

    drawing : Value → List Num → Node A
    unfolding pts grid_line dot
    drawing color points =
        let line = pts (of 300) (of 120) points in
        element "svg"
          (record no_props {
            attributes = ("viewBox", str "0 0 300 120") ∷ ("preserveAspectRatio", str "none") ∷ [];
            style = ("width", str "100%") ∷ ("height", str "100%") ∷ ("display", str "block") ∷ [];
          })
          (append (nodes (map grid_line (25 ∷ 50 ∷ 75 ∷ []))) (
            nodes (
              element "polygon"
                (record no_props {
                  attributes =
                      ("points", str (cat "0,120 " (cat line " 300,120")))
                      ∷ ("fill", color)
                      ∷ ("opacity", str "0.08")
                      ∷ [];
                })
                nil
              ∷ element "polyline"
                  (record no_props {
                    attributes =
                        ("points", str line)
                        ∷ ("fill", str "none")
                        ∷ ("stroke", color)
                        ∷ ("strokeWidth", str "2")
                        ∷ ("strokeLinejoin", str "round")
                        ∷ ("strokeLinecap", str "round")
                        ∷ [];
                  })
                  nil
              ∷ dot color (last_of points)
              ∷ [])))

    axis_label : String → String → Node A
    axis_label edge label =
        drawn "div"
          (("position", str "absolute")
            ∷ (edge, num "4")
            ∷ ("right", num "6")
            ∷ ("fontSize", num "9")
            ∷ ("color", str "var(--wf-soft)")
            ∷ [])
          (said label)

    frame_pill : ℕ → String → Node A
    frame_pill i f =
        both "span" (cat "wf-pill" (if nat_beq i 2 then " wf-pill-active" else ""))
          (("padding", str "3px 10px") ∷ ("fontSize", num "11") ∷ []) (said f)

    unfoldable pub chart :
        Option (List Num) → Option Value → Option Value → Option (List String) → Style → Node A
    unfolding drawing axis_label frame_pill
    chart points h color frames style = drawn "div" style (
        nodes (
          drawn "div"
            (("position", str "relative")
              ∷ ("width", str "100%")
              ∷ ("height", or_else h (num "150"))
              ∷ ("border", str "1.5px solid var(--wf-faint)")
              ∷ ("borderRadius", num "6")
              ∷ ("overflow", str "hidden")
              ∷ ("background", str "var(--wf-paper)")
              ∷ [])
            (nodes (
              drawing (or_else color accent) (or_else points sample_points)
              ∷ axis_label "top" "100%"
              ∷ axis_label "bottom" "0%"
              ∷ []))
          ∷ both "div" "wf-row"
              (("gap", num "5") ∷ ("marginTop", num "8") ∷ ("justifyContent", str "center") ∷ [])
              (nodes (map_idx frame_pill 0 (or_else frames default_frames)))
          ∷ []))

    unfoldable pub sparkline :
        Option (List Num) → Option Value → Option Num → Option Num → Style → Node A
    unfolding pts
    sparkline points color w h style =
        let width = or_else w (of 70) in
        let height = or_else h (of 22) in
        let values = or_else points (map of (50 ∷ 52 ∷ 49 ∷ 55 ∷ 58 ∷ 56 ∷ 62 ∷ [])) in
        element "svg"
          (record no_props {
            attributes =
                ("width", num (show width))
                ∷ ("height", num (show height))
                ∷ ("viewBox", str (cat "0 0 " (cat (show width) (cat " " (show height)))))
                ∷ [];
            style = style;
          })
          (one (
            element "polyline"
              (record no_props {
                attributes =
                    ("points", str (pts width height values))
                    ∷ ("fill", str "none")
                    ∷ ("stroke", or_else color accent)
                    ∷ ("strokeWidth", str "1.5")
                    ∷ ("strokeLinejoin", str "round")
                    ∷ [];
              })
              nil))
