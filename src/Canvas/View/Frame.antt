-- ===== src/Canvas/View/Frame.antt =====
-- docs/design/wireframes/v2/design-canvas.jsx: what `DCArtboardFrame` draws.
pub mod Deletes
mod Tests
use adivento.Base.{
  Bool, true, false, Option, none, some, List, [], ◌∷◌, if◌then◌else◌, String, or_else,
}
use adivento.Markup.{
  Value, str, num, Style, Props, Node, text, element, Nodes, nil, cons, nodes, append, when,
  no_props, classed, drawn, both, one, said, spread,
}
use adivento.Markup.Queries.{Handler, runs, stop}
use adivento.Canvas.Menu.{Menu, Event, kebab, export, delete}
use adivento.Canvas.Export.File.{Kind, html, png}
use adivento.Canvas.View.{dc_label, dc_font, dc_editable}

-- `onFocus`, `onRename`, a click on the menu, and `doExport(kind)`.
pub data Action : Type 0 where
  focus : Action
  rename : String → Action
  on_menu : Event → Action
  export_as : Kind → Action

-- The event of the menu that an action is, the card being mounted.
unfoldable pub event_of : Action → Option Event
event_of focus = none
event_of (rename s) = none
event_of (on_menu e) = some e
event_of (export_as k) = some (export true)

abbrev Part : Type 0
Part = Node (Handler Action)

-- A circle of the icons, at a place; the radius is the same for all.
icon_dot : String → String → Part
icon_dot x y =
    element "circle"
      (record no_props { attributes = ("cx", str x) ∷ ("cy", str y) ∷ ("r", str "1.1") ∷ [] }) nil

icon : String → String → String → List (String × Value) → Nodes (Handler Action) → Part
icon w h box more ns =
    element "svg"
      (record no_props {
        attributes = ("width", str w) ∷ ("height", str h) ∷ ("viewBox", str box) ∷ more;
      })
      ns

filled : List (String × Value)
filled = ("fill", str "currentColor") ∷ []

grip : Part
unfolding icon icon_dot filled
grip =
    element "div"
      (record no_props {
        class_name = some "dc-grip";
        attributes = ("title", str "Drag to reorder") ∷ [];
      })
      (one (
        icon "9" "13" "0 0 9 13" filled (
          nodes (
            icon_dot "2" "2"
            ∷ icon_dot "7" "2"
            ∷ icon_dot "2" "6.5"
            ∷ icon_dot "7" "6.5"
            ∷ icon_dot "2" "11"
            ∷ icon_dot "7" "11"
            ∷ []))))

-- The label, whose own clicks stop before the one that focuses.
label_text : String → Part
unfolding dc_editable
label_text label =
    element "div"
      (record no_props {
        class_name = some "dc-labeltext";
        attributes = ("title", str "Click to focus") ∷ [];
        on_click = runs focus;
      })
      (one (
        dc_editable none label (some (λ s. record { stops = false; does = some (rename s) })) stop (
          ("fontSize", num "15")
          ∷ ("fontWeight", num "500")
          ∷ ("color", dc_label)
          ∷ ("lineHeight", num "1")
          ∷ [])))

menu_button : Option String → Action → String → Part
menu_button cls a label =
    element "button" (record no_props { class_name = cls; on_click = runs a }) (said label)

-- The entries, which are drawn while the menu is open.
entries : Menu → Part
unfolding menu_button
entries m = classed "div" "dc-menu" (
    nodes (
      menu_button none (export_as png) "Download PNG"
      ∷ menu_button none (export_as html) "Download HTML"
      ∷ element "hr" no_props nil
      ∷ menu_button (some "dc-danger") (on_menu delete)
          (if m.confirming then "Click again to delete" else "Delete")
      ∷ []))

kebab_button : Part
unfolding icon icon_dot filled
kebab_button =
    element "button"
      (record no_props {
        class_name = some "dc-kebab";
        attributes = ("title", str "More") ∷ [];
        on_click = runs (on_menu kebab);
      })
      (one (
        icon "12" "12" "0 0 12 12" filled
          (nodes (icon_dot "2.5" "6" ∷ icon_dot "6" "6" ∷ icon_dot "9.5" "6" ∷ []))))

expand_button : Part
unfolding icon
expand_button =
    element "button"
      (record no_props {
        class_name = some "dc-expand";
        attributes = ("title", str "Focus") ∷ [];
        on_click = runs focus;
      })
      (one (
        icon "12" "12" "0 0 12 12"
          (("fill", str "none")
            ∷ ("stroke", str "currentColor")
            ∷ ("strokeWidth", str "1.6")
            ∷ ("strokeLinecap", str "round")
            ∷ [])
          (one (
            element "path"
              (record no_props {
                attributes = ("d", str "M7 1h4v4M5 11H1V7M11 1L7.5 4.5M1 11l3.5-3.5") ∷ [];
              })
              nil))))

-- `children || …`: the id where the artboard has no children.
card_content : String → Nodes (Handler Action) → Nodes (Handler Action)
card_content id (cons n ns) = cons n ns
card_content id nil = one (
    drawn "div"
      (("height", str "100%")
        ∷ ("display", str "flex")
        ∷ ("alignItems", str "center")
        ∷ ("justifyContent", str "center")
        ∷ ("color", str "#bbb")
        ∷ ("fontSize", num "13")
        ∷ ("fontFamily", dc_font)
        ∷ [])
      (said id))

card : String → Option Value → Option Value → Style → Nodes (Handler Action) → Part
unfolding card_content spread
card id width height style children =
    both "div" "dc-card"
      (spread
        (("borderRadius", num "2")
          ∷ ("boxShadow", str "0 1px 3px rgba(0,0,0,.08),0 4px 16px rgba(0,0,0,.06)")
          ∷ ("overflow", str "hidden")
          ∷ ("width", or_else width (num "260"))
          ∷ ("height", or_else height (num "480"))
          ∷ ("background", str "#fff")
          ∷ [])
        style)
      (card_content id children)

unfoldable pub header : String → Menu → Part
unfolding grip label_text kebab_button entries expand_button
header label m =
    element "div"
      (record no_props {
        class_name = some "dc-header";
        attributes = ("data-omelette-chrome", str "") ∷ [];
        style = ("color", dc_label) ∷ [];
      })
      (nodes (
        classed "div" "dc-labelrow" (nodes (grip ∷ label_text label ∷ []))
        ∷ classed "div" "dc-btns" (
            nodes (
              drawn "div" (("position", str "relative") ∷ [])
                (cons kebab_button (when m.menu_open (entries m)))
              ∷ expand_button
              ∷ []))
        ∷ []))

unfoldable pub frame :
    String → String → Option Value → Option Value → Style → Menu → Nodes (Handler Action) → Part
unfolding header card
frame id label width height style m children =
    element "div"
      (record no_props {
        attributes = ("data-dc-slot", str id) ∷ [];
        style = ("position", str "relative") ∷ ("flexShrink", num "0") ∷ [];
      })
      (nodes (header label m ∷ card id width height style children ∷ []))
