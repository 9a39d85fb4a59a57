-- ===== src/Canvas/View.antt =====
-- docs/design/wireframes/v2/design-canvas.jsx: what the components of the canvas draw. The handlers
-- of clicks and of renames stand in the trees; those of the pointer are in the modules of their
-- components, and the classes of hover are the browser's.
pub mod Frame
pub mod Overlay
pub mod Root
mod Tests
use Prim.Native.String.{◌++◌ as cat}
use adivento.Base.{
  Bool, true, false, Option, none, some, List, [], ◌∷◌, map, if◌then◌else◌, String, or_else,
}
use adivento.Markup.{
  Value, str, num, value_text, Style, Props, Node, text, element, Nodes, nil, cons, nodes, append,
  no_props, classed, drawn, both, one, said, spread, when_text,
}

-- The colours and the font of `DC`.
abbrev pub dc_bg : Value
dc_bg = str "#f0eee9"

abbrev pub dc_label : Value
dc_label = str "rgba(60,50,40,0.7)"

abbrev pub dc_title : Value
dc_title = str "rgba(40,30,20,0.85)"

abbrev pub dc_subtitle : Value
dc_subtitle = str "rgba(60,50,40,0.6)"

abbrev pub dc_postit_bg : Value
dc_postit_bg = str "#fef4a8"

abbrev pub dc_postit_text : Value
dc_postit_text = str "#5a4a2a"

abbrev pub dc_font : Value
dc_font = str "-apple-system, BlinkMacSystemFont, \"Segoe UI\", system-ui, sans-serif"

-- `[k]: v`, left out where the property was left out
abbrev pub optional : String → Option Value → Style
optional k none = []
optional k (some v) = (k, v) ∷ []

module _ {A : Type 0} where
  -- `DCEditable`: its text is committed when it loses the focus, which Enter brings about.
  unfoldable pub dc_editable :
      Option String → String → Option (String → A) → Option A → Style → Node A
  dc_editable tag value on_change on_click style =
      element (or_else tag "span")
        (record {
          class_name = some "dc-editable";
          style = style;
          attributes = [];
          on_click = on_click;
          on_change = on_change;
        })
        (said value)

  unfoldable pub dc_post_it :
      Option Value
      → Option Value
      → Option Value
      → Option Value
      → Option String
      → Option Value
      → Nodes A
      → Node A
  unfolding spread
  dc_post_it top left right bottom rotate width children =
      drawn "div"
        (spread
          (spread
            (spread
              (spread (spread (("position", str "absolute") ∷ []) (optional "top" top))
                (optional "left" left))
              (optional "right" right))
            (optional "bottom" bottom))
          (("width", or_else width (num "180"))
            ∷ ("background", dc_postit_bg)
            ∷ ("padding", str "14px 16px")
            ∷ ("fontFamily", str "\"Comic Sans MS\", \"Marker Felt\", \"Segoe Print\", cursive")
            ∷ ("fontSize", num "14")
            ∷ ("lineHeight", num "1.4")
            ∷ ("color", dc_postit_text)
            ∷ ("boxShadow", str "0 2px 8px rgba(0,0,0,0.12), 0 1px 2px rgba(0,0,0,0.08)")
            ∷ ("transform", str (cat "rotate(" (cat (or_else rotate "-2") "deg)")))
            ∷ ("zIndex", num "5")
            ∷ []))
        children

  -- `DCSection`: its head, the row of frames, and the children that are no artboards. `rename` is
  -- what the change of the title does.
  unfoldable pub dc_section :
      String → String → Option String → Option Value → (String → A) → Nodes A → Nodes A → Node A
  unfolding dc_editable
  dc_section sid title subtitle gap rename frames rest =
      element "div"
        (record no_props {
          attributes = ("data-dc-section", str sid) ∷ [];
          style =
              ("marginBottom", str "calc(80px * var(--dc-inv-zoom, 1))")
              ∷ ("position", str "relative")
              ∷ [];
        })
        (cons
          (drawn "div" (("padding", str "0 60px") ∷ []) (
            one (
              both "div" "dc-sectionhead" (("paddingBottom", num "36") ∷ []) (
                cons
                  (dc_editable (some "div") title (some rename) none (
                    ("fontSize", num "28")
                    ∷ ("fontWeight", num "600")
                    ∷ ("color", dc_title)
                    ∷ ("letterSpacing", num "-0.4")
                    ∷ ("marginBottom", num "6")
                    ∷ ("display", str "inline-block")
                    ∷ []))
                  (when_text subtitle (λ s.
                    drawn "div" (("fontSize", num "16") ∷ ("color", dc_subtitle) ∷ [])
                      (said s)))))))
          (cons
            (drawn "div"
              (("display", str "flex")
                ∷ ("gap", or_else gap (num "48"))
                ∷ ("padding", str "0 60px")
                ∷ ("alignItems", str "flex-start")
                ∷ ("width", str "max-content")
                ∷ [])
              frames)
            rest))

  -- `DCViewport`: the world with its grid; `encode` is `encodeURIComponent`.
  unfoldable pub dc_viewport : (String → String) → Style → Nodes A → Node A
  unfolding spread
  dc_viewport encode style children =
      let grid_svg =
        cat
          "url(\"data:image/svg+xml,%3Csvg width='120' height='120' xmlns='http://www.w3.org/2000/svg'%3E%3Cpath d='M120 0H0v120' fill='none' stroke='"
          (cat (encode "rgba(0,0,0,0.06)") "' stroke-width='1'/%3E%3C/svg%3E\")") in
      both "div" "design-canvas"
        (spread
          (("height", str "100vh")
            ∷ ("width", str "100vw")
            ∷ ("background", dc_bg)
            ∷ ("overflow", str "hidden")
            ∷ ("overscrollBehavior", str "none")
            ∷ ("touchAction", str "none")
            ∷ ("position", str "relative")
            ∷ ("fontFamily", dc_font)
            ∷ ("boxSizing", str "border-box")
            ∷ [])
          style)
        (one (
          drawn "div"
            (("position", str "absolute")
              ∷ ("top", num "0")
              ∷ ("left", num "0")
              ∷ ("transformOrigin", str "0 0")
              ∷ ("willChange", str "transform")
              ∷ ("width", str "max-content")
              ∷ ("minWidth", str "100%")
              ∷ ("minHeight", str "100%")
              ∷ ("padding", str "60px 0 80px")
              ∷ [])
            (cons
              (drawn "div"
                (("position", str "absolute")
                  ∷ ("inset", num "-6000")
                  ∷ ("backgroundImage", str grid_svg)
                  ∷ ("backgroundSize", str "120px 120px")
                  ∷ ("pointerEvents", str "none")
                  ∷ ("zIndex", num "-1")
                  ∷ [])
                nil)
              children)))
