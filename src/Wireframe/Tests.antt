-- ===== src/Wireframe/Tests.antt =====
-- The kit's parts and bars at concrete properties.
use adivento.Base.{false, none, some, List, [], ◌∷◌, filter, ◌===◌, String, string_eq, ◌≡◌, refl}
use adivento.Markup.{str, num, Style, Node, Nodes, nil, cons, text, element, spread}
use adivento.Markup.Queries.{texts_where}
use adivento.Wireframe.Kit.{lines, heading}
use adivento.Wireframe.Kit.Chrome.{web_bar}
use adivento.Wireframe.Dark.{alt_bar}
use adivento.Wireframe.Active.{is_bold, alt_bar-active}

abbrev style_of : Node String → Style
style_of (text s) = []
style_of (element tag p ns) = p.style

abbrev styles_of : Nodes String → List Style
styles_of nil = []
styles_of (cons n ns) = style_of n ∷ styles_of ns

abbrev below : Node String → List Style
below (text s) = []
below (element tag p ns) = styles_of ns

last_line_lem :
    below (lines none none none none [])
    ≡ (("width", str "100%") ∷ []) ∷ (("width", str "100%") ∷ []) ∷ (("width", str "60%") ∷ []) ∷ []
unfolding lines
last_line_lem = refl

heading_style :
    style_of (heading none (("color", str "red") ∷ ("margin", num "0") ∷ []) nil)
    ≡ ("fontSize", num "20")
      ∷ ("fontWeight", num "700")
      ∷ ("color", str "red")
      ∷ ("lineHeight", num "1.2")
      ∷ ("margin", num "0")
      ∷ []
unfolding heading spread
heading_style = refl

web_bar_bold :
    texts_where is_bold (web_bar {A = String} (some "Positions") none (some false) [])
    ≡ "Positions" ∷ []
unfolding web_bar
web_bar_bold = refl

abbrev two : List String
two = "a" ∷ "b" ∷ []

alt_bar-active_example :
    texts_where is_bold (alt_bar {A = String} (some "b") (some two) [])
    ≡ filter (λ t. t === "b") two
alt_bar-active_example = alt_bar-active String "b" two
