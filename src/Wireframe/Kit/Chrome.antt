-- ===== src/Wireframe/Kit/Chrome.antt =====
-- docs/design/wireframes/v2/wireframe-kit.jsx: the bars around the screens.
use adivento.Base.{
  Bool, true, false, Option, List, [], ◌∷◌, map, if◌then◌else◌, ◌===◌, String, string_eq, or_else,
}
use adivento.Markup.{
  Value, str, num, Style, Node, text, nil, cons, nodes, append, drawn, both, one, said, spread,
}
use adivento.Wireframe.Kit.{accent, soft_ink}

abbrev pub web_items : List String
web_items = "Markets" ∷ "Leaderboard" ∷ "Positions" ∷ "Profile" ∷ []

-- The style of a bar at the bottom of a screen.
unfoldable pub bottom_bar : String → String → Style → Style
unfolding spread
bottom_bar height background style =
    spread
      (("position", str "absolute")
        ∷ ("bottom", num "0")
        ∷ ("left", num "0")
        ∷ ("right", num "0")
        ∷ ("height", num height)
        ∷ ("borderTop", str "1.5px solid var(--wf-faint)")
        ∷ ("background", str background)
        ∷ ("justifyContent", str "space-around")
        ∷ [])
      style

abbrev pub tabs : List (String × String)
tabs = ("Markets", "▦") ∷ ("Search", "⌕") ∷ ("Positions", "▣") ∷ ("Profile", "◉") ∷ []

abbrev pub sidebar_items : List String
sidebar_items =
    "Dashboard" ∷ "Markets" ∷ "Templates" ∷ "Faucet Requests" ∷ "Permissions" ∷ "Ad-hoc Grants" ∷ []

module _ {A : Type 0} where
  -- An entry of a bar: `t === active` chooses its weight, its colour and its background.
  unfoldable pub bar_item : Value → Value → String → String → String → Node A
  bar_item color background padding active t =
      let on = t === active in
      drawn "span"
        (("fontSize", num "12.5")
          ∷ ("fontWeight", num (if on then "700" else "500"))
          ∷ ("color", if on then color else soft_ink)
          ∷ ("padding", str padding)
          ∷ ("borderRadius", num "6")
          ∷ ("background", if on then background else str "transparent")
          ∷ [])
        (said t)

  -- The balance of a visitor who is signed in, or the button to sign in.
  unfoldable pub account : Bool → String → Node A
  account true balance =
      both "span" "wf-pill"
        (("background", str "var(--wf-accent-soft)")
          ∷ ("borderColor", str "var(--wf-accent-soft)")
          ∷ ("color", accent)
          ∷ ("fontWeight", num "700")
          ∷ [])
        (cons (text balance) (said " ADIV"))
  account false balance =
      both "span" "wf-btn wf-btn-primary"
        (("padding", str "5px 12px") ∷ ("fontSize", num "12") ∷ []) (said "Sign in")

  -- The mark and the name at the left of a bar.
  unfoldable pub brand : Style → Style → Style → String → Node A
  brand around mark name title =
      both "div" "wf-row" around
        (cons (drawn "div" mark nil) (one (drawn "span" name (said title))))

  unfoldable pub web_bar : Option String → Option String → Option Bool → Style → Node A
  unfolding spread bar_item account brand
  web_bar active balance signed_in style =
      both "div" "wf-row"
        (spread
          (("justifyContent", str "space-between")
            ∷ ("padding", str "0 22px")
            ∷ ("height", num "52")
            ∷ ("borderBottom", str "1.5px solid var(--wf-faint)")
            ∷ ("background", str "#fff")
            ∷ [])
          style)
        (cons
          (brand (("gap", num "8") ∷ [])
            (("width", num "16")
              ∷ ("height", num "16")
              ∷ ("borderRadius", num "4")
              ∷ ("background", accent)
              ∷ [])
            (("fontWeight", num "800")
              ∷ ("fontSize", num "15")
              ∷ ("letterSpacing", str "-.02em")
              ∷ [])
            "Adivento")
          (one (
            both "div" "wf-row" (("gap", num "4") ∷ []) (
              append
                (nodes (
                  map
                    (bar_item accent (str "var(--wf-accent-soft)") "5px 9px"
                      (or_else active "Markets"))
                    web_items))
                (one (account (or_else signed_in true) (or_else balance "4,250")))))))

  unfoldable pub phone_status : Style → Node A
  unfolding spread
  phone_status style =
      both "div" "wf-row"
        (spread
          (("justifyContent", str "space-between")
            ∷ ("padding", str "0 18px")
            ∷ ("height", num "30")
            ∷ ("fontSize", num "11")
            ∷ ("fontWeight", num "700")
            ∷ ("color", str "var(--wf-ink)")
            ∷ [])
          style)
        (cons (drawn "span" [] (said "9:41")) (
          one (
            both "div" "wf-row" (("gap", num "4") ∷ []) (
              nodes (
                drawn "span" (("fontSize", num "10") ∷ []) (said "●●●")
                ∷ drawn "span" (("fontSize", num "10") ∷ []) (said "▮▮▮")
                ∷ drawn "span"
                    (("width", num "16")
                      ∷ ("height", num "9")
                      ∷ ("border", str "1.2px solid var(--wf-ink)")
                      ∷ ("borderRadius", num "2")
                      ∷ ("display", str "inline-block")
                      ∷ [])
                    nil
                ∷ [])))))

  -- A tab: a title and its icon.
  unfoldable pub tab_item : Value → Value → String → String × String → Node A
  tab_item color icon_size active t =
      let on = t.0 === active in
      both "div" "wf-col"
        (("alignItems", str "center")
          ∷ ("gap", num "3")
          ∷ ("color", if on then color else soft_ink)
          ∷ [])
        (cons (drawn "span" (("fontSize", icon_size) ∷ []) (said t.1)) (
          one (
            drawn "span"
              (("fontSize", num "9.5") ∷ ("fontWeight", num (if on then "700" else "500")) ∷ [])
              (said t.0))))

  unfoldable pub tab_bar : Option String → Style → Node A
  unfolding tab_item bottom_bar
  tab_bar active style =
      both "div" "wf-row" (bottom_bar "58" "#fff" style)
        (nodes (map (tab_item accent (num "17") (or_else active "Markets")) tabs))

  unfoldable pub bo_sidebar : Option String → Style → Node A
  unfolding spread bar_item brand
  bo_sidebar active style =
      both "div" "wf-col"
        (spread
          (("width", num "168")
            ∷ ("borderRight", str "1.5px solid var(--wf-faint)")
            ∷ ("padding", str "16px 12px")
            ∷ ("gap", num "4")
            ∷ ("background", str "#fafaf8")
            ∷ ("height", str "100%")
            ∷ [])
          style)
        (cons
          (brand (("gap", num "7") ∷ ("padding", str "0 6px 12px") ∷ [])
            (("width", num "14")
              ∷ ("height", num "14")
              ∷ ("borderRadius", num "4")
              ∷ ("background", str "var(--wf-warn)")
              ∷ [])
            (("fontWeight", num "800") ∷ ("fontSize", num "13") ∷ []) "Backoffice")
          (nodes (
            map
              (bar_item (str "var(--wf-warn)") (str "var(--wf-warn-soft)") "7px 8px"
                (or_else active "Markets"))
              sidebar_items)))
