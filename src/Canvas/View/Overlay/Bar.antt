-- ===== src/Canvas/View/Overlay/Bar.antt =====
-- docs/design/wireframes/v2/design-canvas.jsx, `DCFocusOverlay`: the bar at its top.
use adivento.Base.{Bool, Option, [], ◌∷◌, map, if◌then◌else◌, String, ◌===◌, string_eq, nat_eq}
use adivento.Markup.{str, num, nil, cons, nodes, when, when_text, drawn, said}
use adivento.Markup.Queries.{runs, stop}
use adivento.Canvas.Focus.{Overlay, dropdown}
use adivento.Canvas.View.Overlay.{close, toggle_dropdown, pick, Part, clickable, drawing}

unfoldable pub dropdown_button : String → Option String → Part
unfolding drawing
dropdown_button title subtitle =
    clickable "button"
      (("border", str "none")
        ∷ ("background", str "transparent")
        ∷ ("color", str "#fff")
        ∷ ("cursor", str "pointer")
        ∷ ("padding", str "6px 8px")
        ∷ ("borderRadius", num "6")
        ∷ ("textAlign", str "left")
        ∷ ("fontFamily", str "inherit")
        ∷ [])
      [] (runs toggle_dropdown)
      (cons
        (drawn "span"
          (("display", str "flex") ∷ ("alignItems", str "center") ∷ ("gap", num "8") ∷ [])
          (nodes (
            drawn "span"
              (("fontSize", num "18")
                ∷ ("fontWeight", num "600")
                ∷ ("letterSpacing", num "-0.3")
                ∷ [])
              (said title)
            ∷ drawing "11" "11" "0 0 11 11" (("strokeWidth", str "1.8") ∷ [])
                (("opacity", num ".7") ∷ []) "M2 4l3.5 3.5L9 4"
            ∷ [])))
        (when_text subtitle (λ s.
          drawn "span"
            (("display", str "block")
              ∷ ("fontSize", num "13")
              ∷ ("opacity", num ".6")
              ∷ ("fontWeight", num "400")
              ∷ ("marginTop", num "2")
              ∷ [])
            (said s))))

-- A section of the dropdown.
unfoldable pub section_button : String → (String → String) → String → Part
section_button section_id title sid =
    let on = sid === section_id in
    clickable "button"
      (("display", str "block")
        ∷ ("width", str "100%")
        ∷ ("textAlign", str "left")
        ∷ ("border", str "none")
        ∷ ("cursor", str "pointer")
        ∷ ("background", str (if on then "rgba(255,255,255,.1)" else "transparent"))
        ∷ ("color", str "#fff")
        ∷ ("padding", str "8px 12px")
        ∷ ("borderRadius", num "5")
        ∷ ("fontSize", num "14")
        ∷ ("fontWeight", num (if on then "600" else "400"))
        ∷ ("fontFamily", str "inherit")
        ∷ [])
      [] (runs (pick sid)) (said (title sid))

unfoldable pub sections : Overlay → (String → String) → Part
unfolding section_button
sections v title =
    drawn "div"
      (("position", str "absolute")
        ∷ ("top", str "100%")
        ∷ ("left", num "0")
        ∷ ("marginTop", num "4")
        ∷ ("background", str "#2a251f")
        ∷ ("borderRadius", num "8")
        ∷ ("boxShadow", str "0 8px 32px rgba(0,0,0,.4)")
        ∷ ("padding", num "4")
        ∷ ("minWidth", num "200")
        ∷ ("zIndex", num "10")
        ∷ [])
      (nodes (map (section_button v.section_id title) (dropdown v)))

unfoldable pub close_button : Part
close_button =
    clickable "button"
      (("border", str "none")
        ∷ ("background", str "transparent")
        ∷ ("color", str "rgba(255,255,255,.7)")
        ∷ ("width", num "32")
        ∷ ("height", num "32")
        ∷ ("borderRadius", num "16")
        ∷ ("fontSize", num "20")
        ∷ ("cursor", str "pointer")
        ∷ ("lineHeight", num "1")
        ∷ ("transition", str "background .12s")
        ∷ [])
      [] (runs close) (said "×")

-- The bar at the top; `dd_open` says whether the dropdown is open.
unfoldable pub top_bar : Overlay → (String → String) → (String → Option String) → Bool → Part
unfolding dropdown_button sections close_button
top_bar v title subtitle dd_open =
    clickable "div"
      (("position", str "absolute")
        ∷ ("top", num "0")
        ∷ ("left", num "0")
        ∷ ("right", num "0")
        ∷ ("height", num "72")
        ∷ ("display", str "flex")
        ∷ ("alignItems", str "flex-start")
        ∷ ("padding", str "16px 20px 0")
        ∷ ("gap", num "16")
        ∷ [])
      [] stop
      (nodes (
        drawn "div" (("position", str "relative") ∷ []) (
          cons (dropdown_button (title v.section_id) (subtitle v.section_id))
            (when dd_open (sections v title)))
        ∷ drawn "div" (("flex", num "1") ∷ []) nil
        ∷ close_button
        ∷ []))
