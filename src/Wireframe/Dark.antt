-- ===== src/Wireframe/Dark.antt =====
-- docs/design/wireframes/v2/wireframe-dark.jsx: the dark screen and the bars of the alternatives.
use adivento.Base.{Option, List, [], ◌∷◌, map, if◌then◌else◌, ◌===◌, String, string_eq, or_else}
use adivento.Markup.{
  Value, str, num, Style, Node, Nodes, nil, cons, nodes, append, drawn, both, one, said, spread,
}
use adivento.Wireframe.Kit.{soft_ink}
use adivento.Wireframe.Kit.Chrome.{bar_item, tab_item, brand, bottom_bar}

-- `A`
abbrev pub dark_accent : Value
dark_accent = str "var(--wf-accent)"

abbrev pub accent_soft : Value
accent_soft = str "var(--wf-accent-soft)"

abbrev pub bar_items : List String
bar_items = "Home" ∷ "Markets" ∷ "Communities" ∷ "Leaderboard" ∷ []

abbrev pub side_items : List (String × String)
side_items =
    ("Home", "⌂")
    ∷ ("Watchlist", "★")
    ∷ ("Markets", "▦")
    ∷ ("Portfolio", "◫")
    ∷ ("Communities", "👥")
    ∷ ("Leaderboard", "↟")
    ∷ []

abbrev pub dark_tabs : List (String × String)
dark_tabs = ("Markets", "▦") ∷ ("Watchlist", "★") ∷ ("Trade", "⇄") ∷ ("Portfolio", "◫") ∷ []

module _ {A : Type 0} where
  unfoldable pub dark : Option Value → Style → Nodes A → Node A
  unfolding spread
  dark bg style children =
      both "div" "wf wf-dark"
        (spread
          (("width", str "100%")
            ∷ ("height", str "100%")
            ∷ ("background", or_else bg (str "#11161f"))
            ∷ ("overflow", str "hidden")
            ∷ ("position", str "relative")
            ∷ [])
          style)
        children

  abbrev pub balance_pill : Node A
  balance_pill =
      both "span" "wf-pill"
        (("background", accent_soft)
          ∷ ("borderColor", accent_soft)
          ∷ ("color", dark_accent)
          ∷ ("fontWeight", num "700")
          ∷ ("marginLeft", num "6")
          ∷ [])
        (said "4,250 ADIV")

  -- The picture of the visitor.
  abbrev pub face : Node A
  face =
      drawn "div"
        (("width", num "28")
          ∷ ("height", num "28")
          ∷ ("borderRadius", str "50%")
          ∷ ("border", str "1.5px solid var(--wf-line)")
          ∷ ("marginLeft", num "6")
          ∷ [])
        nil

  unfoldable pub alt_bar : Option String → Option (List String) → Style → Node A
  unfolding spread bar_item brand
  alt_bar active items style =
      both "div" "wf-row"
        (spread
          (("justifyContent", str "space-between")
            ∷ ("padding", str "0 22px")
            ∷ ("height", num "50")
            ∷ ("borderBottom", str "1.5px solid var(--wf-faint)")
            ∷ ("background", str "#10141d")
            ∷ [])
          style)
        (cons
          (brand (("gap", num "9") ∷ [])
            (("width", num "15")
              ∷ ("height", num "15")
              ∷ ("borderRadius", num "4")
              ∷ ("background", dark_accent)
              ∷ [])
            (("fontWeight", num "800")
              ∷ ("fontSize", num "15")
              ∷ ("letterSpacing", str "-.02em")
              ∷ ("color", str "var(--wf-ink)")
              ∷ [])
            "Adivento")
          (one (
            both "div" "wf-row" (("gap", num "3") ∷ []) (
              append
                (nodes (
                  map (bar_item dark_accent accent_soft "5px 10px" (or_else active "Home"))
                    (or_else items bar_items)))
                (nodes (balance_pill ∷ face ∷ []))))))

  -- An entry of the side bar: a title and its icon.
  unfoldable pub side_item : String → String × String → Node A
  side_item active t =
      let on = t.0 === active in
      both "span" "wf-row"
        (("gap", num "9")
          ∷ ("fontSize", num "12.5")
          ∷ ("fontWeight", num (if on then "700" else "500"))
          ∷ ("color", if on then dark_accent else soft_ink)
          ∷ ("padding", str "8px 9px")
          ∷ ("borderRadius", num "6")
          ∷ ("background", if on then accent_soft else str "transparent")
          ∷ [])
        (cons (drawn "span" (("width", num "15") ∷ ("textAlign", str "center") ∷ []) (said t.1))
          (said t.0))

  unfoldable pub alt_sidebar : Option String → Style → Node A
  unfolding spread side_item brand
  alt_sidebar active style =
      both "div" "wf-col"
        (spread
          (("width", num "156")
            ∷ ("borderRight", str "1.5px solid var(--wf-faint)")
            ∷ ("padding", str "14px 10px")
            ∷ ("gap", num "3")
            ∷ ("background", str "#10141d")
            ∷ ("height", str "100%")
            ∷ [])
          style)
        (cons
          (brand (("gap", num "8") ∷ ("padding", str "2px 6px 12px") ∷ [])
            (("width", num "14")
              ∷ ("height", num "14")
              ∷ ("borderRadius", num "4")
              ∷ ("background", dark_accent)
              ∷ [])
            (("fontWeight", num "800")
              ∷ ("fontSize", num "13")
              ∷ ("color", str "var(--wf-ink)")
              ∷ [])
            "Adivento")
          (nodes (map (side_item (or_else active "Watchlist")) side_items)))

  unfoldable pub alt_tab_bar : Option String → Style → Node A
  unfolding tab_item bottom_bar
  alt_tab_bar active style =
      both "div" "wf-row" (bottom_bar "56" "#10141d" style)
        (nodes (map (tab_item dark_accent (num "16") (or_else active "Markets")) dark_tabs))
