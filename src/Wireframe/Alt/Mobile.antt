-- ===== src/Wireframe/Alt/Mobile.antt =====
-- docs/design/wireframes/v2/wireframes-alt.jsx: `MobileTrade`, a market on a phone with its ticket in
-- a sheet.
use adivento.Base.{List, [], ◌∷◌, String, none, some, false, true, map}
use adivento.Number.{Number}
use adivento.Markup.{str, num, Node, nil, nodes, drawn, both, one, said, no_props, spread}
use adivento.Wireframe.Kit.{paragraph, row, chip, box, btn, field, ann}
use adivento.Wireframe.Kit.Charts.{chart}
use adivento.Wireframe.Dark.{dark, alt_tab_bar}
use adivento.Wireframe.Alt.{ac, pos, faint, soft, cap, up, chg}

abbrev facts : List (String × String)
facts = ("Vol", "24k") ∷ ("Spread", "3¢") ∷ ("Holders", "146") ∷ []

module _ {A : Type 0} where
  status : Node A
  status =
      both "div" "wf-row"
        (("justifyContent", str "space-between")
          ∷ ("padding", str "10px 16px")
          ∷ ("height", num "30")
          ∷ ("fontSize", num "11")
          ∷ ("fontWeight", num "700")
          ∷ [])
        (nodes (
          drawn "span" [] (said "9:41")
          ∷ drawn "span" (("fontSize", num "10") ∷ []) (said "▮▮▮ ◗")
          ∷ []))

  fact : String × String → Node A
  unfolding box paragraph spread
  fact f =
      box false
        (("flex", num "1")
          ∷ ("padding", str "8px 0")
          ∷ ("textAlign", str "center")
          ∷ ("borderColor", faint)
          ∷ [])
        no_props
        (nodes (
          drawn "div" (spread cap (("fontSize", num "9") ∷ [])) (said f.0)
          ∷ paragraph (some (num "12")) false [] (one (drawn "b" [] (said f.1)))
          ∷ []))

  sides : Node A
  unfolding row box
  sides = row none (("gap", num "8") ∷ ("marginBottom", num "8") ∷ []) (
      nodes (
        box false
          (("flex", num "1")
            ∷ ("textAlign", str "center")
            ∷ ("padding", str "8px 0")
            ∷ ("borderWidth", num "2")
            ∷ ("borderColor", pos)
            ∷ ("fontSize", num "12")
            ∷ [])
          no_props (one (drawn "b" (("color", pos) ∷ []) (said "Buy YES")))
        ∷ box false
            (("flex", num "1")
              ∷ ("textAlign", str "center")
              ∷ ("padding", str "8px 0")
              ∷ ("borderColor", faint)
              ∷ ("fontSize", num "12")
              ∷ [])
            no_props (one (drawn "b" (("color", soft) ∷ []) (said "Buy NO")))
        ∷ []))

  sheet : Node A
  unfolding sides row field btn
  sheet =
      drawn "div"
        (("position", str "absolute")
          ∷ ("bottom", num "56")
          ∷ ("left", num "0")
          ∷ ("right", num "0")
          ∷ ("background", str "#161c28")
          ∷ ("borderTop", str "1.5px solid var(--wf-line)")
          ∷ ("borderRadius", str "14px 14px 0 0")
          ∷ ("padding", str "12px 16px")
          ∷ [])
        (nodes (
          drawn "div"
            (("display", str "flex")
              ∷ ("justifyContent", str "center")
              ∷ ("paddingBottom", num "8")
              ∷ [])
            (one (
              drawn "div"
                (("width", num "90")
                  ∷ ("height", num "5")
                  ∷ ("borderRadius", num "3")
                  ∷ ("background", faint)
                  ∷ [])
                nil))
          ∷ sides
          ∷ row none (("gap", num "8") ∷ []) (
              nodes (
                field (some "54¢") (("width", num "70") ∷ [])
                ∷ field (some "Qty 10") (("flex", num "1") ∷ [])
                ∷ btn true false
                    (("background", pos) ∷ ("borderColor", pos) ∷ ("color", str "#06140d") ∷ [])
                    (said "Buy")
                ∷ []))
          ∷ []))

module _ (N : Number) (show : N.Num → String) (not_a_number : N.Num) {A : Type 0} where
  market : Node A
  unfolding row paragraph chip chg chart fact
  market = drawn "div" (("padding", str "4px 16px 150px") ∷ []) (
      nodes (
        row none (("justifyContent", str "space-between") ∷ ("marginBottom", num "8") ∷ []) (
          nodes (
            paragraph (some (num "12")) true [] (said "‹ Back")
            ∷ paragraph (some (num "13")) false [] (said "★ ⋯")
            ∷ []))
        ∷ row none (("gap", num "5") ∷ ("marginBottom", num "8") ∷ []) (
            nodes (
              chip [] (said "Open")
              ∷ chip (("color", ac) ∷ ("borderColor", ac) ∷ []) (said "CLOB")
              ∷ []))
        ∷ paragraph (some (num "15")) false
            (("fontWeight", num "700")
              ∷ ("marginBottom", num "10")
              ∷ ("color", str "var(--wf-ink)")
              ∷ [])
            (said "Will the proposal pass before Q3?")
        ∷ row none
            (("gap", num "10") ∷ ("alignItems", str "baseline") ∷ ("marginBottom", num "10") ∷ [])
            (nodes (
              drawn "span" (("fontSize", num "30") ∷ ("fontWeight", num "800") ∷ ("color", ac) ∷ [])
                (said "54¢")
              ∷ chg N show (up 2)
              ∷ []))
        ∷ chart N show not_a_number
            (some (map N.of (42 ∷ 46 ∷ 44 ∷ 50 ∷ 48 ∷ 53 ∷ 51 ∷ 55 ∷ 54 ∷ []))) (some (num "150"))
            (some ac) (some ("1H" ∷ "1D" ∷ "1W" ∷ "ALL" ∷ [])) (("marginBottom", num "12") ∷ [])
        ∷ row none (("gap", num "8") ∷ []) (nodes (map fact facts))
        ∷ []))

  unfoldable pub mobile_trade : Node A
  unfolding dark status market sheet alt_tab_bar ann
  mobile_trade = dark none [] (
      nodes (
        status
        ∷ market
        ∷ sheet
        ∷ alt_tab_bar (some "Trade") []
        ∷ ann (some "3")
            (("position", str "absolute")
              ∷ ("left", num "-2")
              ∷ ("bottom", num "210")
              ∷ ("transform", str "rotate(-3deg)")
              ∷ [])
            (said "B3: mobile terminal — chart + sheet")
        ∷ []))
