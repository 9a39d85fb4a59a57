-- ===== src/Canvas/View/Overlay/Stage.antt =====
-- docs/design/wireframes/v2/design-canvas.jsx, `DCFocusOverlay`: the card with its scale, the arrows,
-- the dots, and the whole.
use Prim.Native.String.{◌++◌ as cat}
use adivento.Base.{
  ℕ, suc, Bool, false, Option, none, some, [], ◌∷◌, if◌then◌else◌, String, ◌===◌, string_eq,
  index_of, length, map_idx, nat_eq,
}
use adivento.Number.{Number, min, max}
use adivento.Markup.{str, num, text, Nodes, nil, cons, nodes, drawn, one, said}
use adivento.Markup.Queries.{Handler, runs, stop, stopped}
use adivento.Canvas.Focus.{Overlay, Step, forward, backward}
use adivento.Canvas.View.{dc_font}
use adivento.Canvas.View.Overlay.{Action, close, step, peer, Part, clickable, drawing}
use adivento.Canvas.View.Overlay.Bar.{top_bar}

-- `Arrow`
unfoldable pub arrow : String → String → Step → Part
unfolding drawing
arrow dir path d =
    clickable "button"
      (("position", str "absolute")
        ∷ ("top", str "50%")
        ∷ (dir, num "28")
        ∷ ("transform", str "translateY(-50%)")
        ∷ ("border", str "none")
        ∷ ("background", str "rgba(255,255,255,.08)")
        ∷ ("color", str "rgba(255,255,255,.9)")
        ∷ ("width", num "44")
        ∷ ("height", num "44")
        ∷ ("borderRadius", num "22")
        ∷ ("fontSize", num "18")
        ∷ ("cursor", str "pointer")
        ∷ ("display", str "flex")
        ∷ ("alignItems", str "center")
        ∷ ("justifyContent", str "center")
        ∷ ("transition", str "background .15s")
        ∷ [])
      [] (stopped (step d))
      (one (drawing "18" "18" "0 0 18 18" (("strokeWidth", str "2") ∷ []) [] path))

-- A dot for each peer, filled at the index of the artboard in focus; `none` is the index -1.
unfoldable pub dot : Option ℕ → ℕ → String → Part
dot idx i p =
    let on : Bool = elim idx [ none ↦ false | some k ↦ i === k ] in
    clickable "button"
      (("border", str "none")
        ∷ ("padding", num "0")
        ∷ ("cursor", str "pointer")
        ∷ ("width", num "6")
        ∷ ("height", num "6")
        ∷ ("borderRadius", num "3")
        ∷ ("background", str (if on then "#fff" else "rgba(255,255,255,.3)"))
        ∷ [])
      [] (runs (peer p)) nil

unfoldable pub dots : Overlay → Part
unfolding dot
dots v =
    let peers = v.slot_ids v.section_id in
    clickable "div"
      (("position", str "absolute")
        ∷ ("bottom", num "20")
        ∷ ("left", str "50%")
        ∷ ("transform", str "translateX(-50%)")
        ∷ ("display", str "flex")
        ∷ ("gap", num "8")
        ∷ [])
      [] stop (nodes (map_idx (dot (index_of peers v.aid)) 0 peers))

-- `tenth` is the literal 0.1, and `show` the text of a number.
module _ (N : Number) (tenth : N.Num) (show : N.Num → String) where
  open N use {Num, of, sub, mul, div}

  -- `Math.max(0.1, Math.min((vp.w - 200) / width, (vp.h - 260) / height, 2))`
  unfoldable pub scale_of : Num → Num → Num → Num → Num
  scale_of vp_w vp_h width height =
      max N tenth
        (min N (min N (div (sub vp_w (of 200)) width) (div (sub vp_h (of 260)) height)) (of 2))

  -- `children || …`
  unfoldable pub card_content : String → Nodes (Handler Action) → Nodes (Handler Action)
  card_content aid (cons n ns) = cons n ns
  card_content aid nil = one (
      drawn "div"
        (("height", str "100%")
          ∷ ("display", str "flex")
          ∷ ("alignItems", str "center")
          ∷ ("justifyContent", str "center")
          ∷ ("color", str "#bbb")
          ∷ [])
        (said aid))

  -- The card and the label with its place among the peers.
  unfoldable pub stage : Overlay → String → Num → Num → Num → Nodes (Handler Action) → Part
  unfolding card_content
  stage v label width height scale children =
      let peers = v.slot_ids v.section_id in
      let place : ℕ = elim (index_of peers v.aid) [ none ↦ 0 | some i ↦ suc i ] in
      drawn "div"
        (("position", str "absolute")
          ∷ ("top", num "64")
          ∷ ("bottom", num "56")
          ∷ ("left", num "100")
          ∷ ("right", num "100")
          ∷ ("display", str "flex")
          ∷ ("flexDirection", str "column")
          ∷ ("alignItems", str "center")
          ∷ ("justifyContent", str "center")
          ∷ ("gap", num "16")
          ∷ [])
        (nodes (
          clickable "div"
            (("width", num (show (mul width scale)))
              ∷ ("height", num (show (mul height scale)))
              ∷ ("position", str "relative")
              ∷ [])
            [] stop
            (one (
              drawn "div"
                (("width", num (show width))
                  ∷ ("height", num (show height))
                  ∷ ("transform", str (cat "scale(" (cat (show scale) ")")))
                  ∷ ("transformOrigin", str "top left")
                  ∷ ("background", str "#fff")
                  ∷ ("borderRadius", num "2")
                  ∷ ("overflow", str "hidden")
                  ∷ ("boxShadow", str "0 20px 80px rgba(0,0,0,.4)")
                  ∷ [])
                (card_content v.aid children)))
          ∷ clickable "div"
              (("fontSize", num "14")
                ∷ ("fontWeight", num "500")
                ∷ ("opacity", num ".85")
                ∷ ("textAlign", str "center")
                ∷ [])
              [] stop
              (cons (text label) (
                one (
                  drawn "span"
                    (("opacity", num ".5")
                      ∷ ("marginLeft", num "10")
                      ∷ ("fontVariantNumeric", str "tabular-nums")
                      ∷ [])
                    (nodes (
                      text (show (of place))
                      ∷ text " / "
                      ∷ text (show (of (length peers)))
                      ∷ [])))))
          ∷ []))

  unfoldable pub overlay :
      Overlay
      → (String → String)
      → (String → Option String)
      → Bool
      → String
      → Num
      → Num
      → Num
      → Nodes (Handler Action)
      → Part
  unfolding top_bar stage arrow dots
  overlay v title subtitle dd_open label width height scale children =
      clickable "div"
        (("position", str "fixed")
          ∷ ("inset", num "0")
          ∷ ("zIndex", num "100")
          ∷ ("background", str "rgba(24,20,16,.6)")
          ∷ ("backdropFilter", str "blur(14px)")
          ∷ ("fontFamily", dc_font)
          ∷ ("color", str "#fff")
          ∷ [])
        [] (runs close)
        (nodes (
          top_bar v title subtitle dd_open
          ∷ stage v label width height scale children
          ∷ arrow "left" "M11 3L5 9l6 6" backward
          ∷ arrow "right" "M7 3l6 6-6 6" forward
          ∷ dots v
          ∷ []))
