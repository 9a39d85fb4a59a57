-- ===== src/Canvas/View/Overlay.antt =====
-- docs/design/wireframes/v2/design-canvas.jsx: `DCFocusOverlay`: its actions,
-- and the parts that it is drawn of.
pub mod Bar
pub mod Stage
pub mod Clicks
use Prim.Native.String.{◌++◌ as cat}
use adivento.Base.{
  ℕ, suc, Bool, true, false, Option, none, some, List, [], ◌∷◌, map, if◌then◌else◌, String, ◌===◌,
  string_eq, or_else, index_of, length, map_idx, nat_eq,
}
use adivento.Number.{Number, min, max}
use adivento.Markup.{
  Value, str, num, Style, Props, Node, text, element, Nodes, nil, cons, nodes, append, when,
  when_text, no_props, classed, drawn, both, one, said,
}
use adivento.Markup.Queries.{Handler, runs, stop, stopped}
use adivento.Canvas.Focus.{Overlay, Step, forward, backward, dropdown}
use adivento.Canvas.View.{dc_font}

-- `ctx.setFocus(null)`, a toggle of the dropdown, a click on a section of it, `go`, and
-- `ctx.setFocus` on a peer.
pub data Action : Type 0 where
  close toggle_dropdown : Action
  pick : String → Action
  step : Step → Action
  peer : String → Action

abbrev pub Part : Type 0
Part = Node (Handler Action)

-- An element with a style, attributes and a click.
abbrev pub clickable :
    String → Style → List (String × Value) → Option (Handler Action) → Nodes (Handler Action) → Part
clickable tag st attributes act ns =
    element tag (record no_props { style = st; attributes = attributes; on_click = act }) ns

unfoldable pub drawing : String → String → String → List (String × Value) → Style → String → Part
drawing w h box stroke st d =
    element "svg"
      (record no_props {
        attributes =
            ("width", str w)
            ∷ ("height", str h)
            ∷ ("viewBox", str box)
            ∷ ("fill", str "none")
            ∷ ("stroke", str "currentColor")
            ∷ ("strokeLinecap", str "round")
            ∷ stroke;
        style = st;
      })
      (one (element "path" (record no_props { attributes = ("d", str d) ∷ [] }) nil))
