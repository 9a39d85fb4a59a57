-- ===== src/Wireframe/Alt/Compact.antt =====
-- docs/design/wireframes/v2/wireframes-alt.jsx: `ChartCompact`, a market under a large chart.
use adivento.Base.{List, [], ◌∷◌, String, none, some, false, true, map}
use adivento.Number.{Number}
use adivento.Markup.{str, num, Value, Style, Node, nodes, drawn, one, said, no_props}
use adivento.Wireframe.Kit.{paragraph, row, card, chip, pill, box, btn, field, heading, ann}
use adivento.Wireframe.Kit.Charts.{chart}
use adivento.Wireframe.Dark.{dark, alt_bar}
use adivento.Wireframe.Alt.{ac, wc, faint, soft, cap, up, chg}

abbrev facts : List (String × String)
facts = ("24h vol", "24k") ∷ ("Liquidity", "88k") ∷ ("Holders", "146") ∷ []

module _ {A : Type 0} where
  fact : String × String → Node A
  unfolding box paragraph
  fact f =
      box false (("flex", num "1") ∷ ("padding", str "10px 12px") ∷ ("borderColor", faint) ∷ [])
        no_props
        (nodes (
          drawn "div" cap (said f.0)
          ∷ paragraph (some (num "15")) false [] (one (drawn "b" [] (said f.1)))
          ∷ []))

  -- A side of the market, with what it pays.
  side : Style → Value → String → String → Node A
  unfolding box
  side st color title pays = box false st no_props (
      nodes (
        drawn "b" (("color", color) ∷ []) (said title)
        ∷ drawn "div" (("fontSize", num "10") ∷ ("color", soft) ∷ []) (said pays)
        ∷ []))

  bet : Node A
  unfolding card row side field btn
  bet = card [] (
      nodes (
        row none (("gap", num "10") ∷ []) (
          nodes (
            side
              (("flex", num "1")
                ∷ ("textAlign", str "center")
                ∷ ("padding", str "12px 0")
                ∷ ("borderWidth", num "2")
                ∷ ("borderColor", ac)
                ∷ [])
              ac "YES 62%" "pays 1.61×"
            ∷ side
                (("flex", num "1")
                  ∷ ("textAlign", str "center")
                  ∷ ("padding", str "12px 0")
                  ∷ ("borderColor", faint)
                  ∷ [])
                wc "NO 38%" "pays 2.63×"
            ∷ []))
        ∷ row none (("gap", num "10") ∷ ("marginTop", num "12") ∷ ("alignItems", str "center") ∷ [])
            (nodes (
              field (some "Stake 100") (("flex", num "1") ∷ [])
              ∷ btn true false
                  (("background", ac) ∷ ("borderColor", ac) ∷ ("color", str "#06121d") ∷ [])
                  (said "Place bet · win 161")
              ∷ []))
        ∷ []))

  folded : Node A
  unfolding row pill
  folded = row none (("gap", num "8") ∷ ("marginTop", num "12") ∷ []) (
      nodes (
        pill false [] (said "Details ▾")
        ∷ pill false [] (said "Resolution ▾")
        ∷ pill false [] (said "Activity ▾")
        ∷ []))

module _ (N : Number) (show : N.Num → String) (not_a_number : N.Num) {A : Type 0} where
  chance : Node A
  unfolding row chg paragraph
  chance =
      row none
        (("gap", num "12") ∷ ("alignItems", str "baseline") ∷ ("marginBottom", num "12") ∷ [])
        (nodes (
          drawn "span" (("fontSize", num "40") ∷ ("fontWeight", num "800") ∷ ("color", ac) ∷ [])
            (said "62%")
          ∷ chg N show (up 4)
          ∷ paragraph (some (num "12")) true [] (said "YES chance · live")
          ∷ []))

  unfoldable pub chart_compact : Node A
  unfolding dark alt_bar row chip heading chance chart fact bet folded ann
  chart_compact = dark none (("padding", num "0") ∷ []) (
      nodes (
        alt_bar (some "Markets") none []
        ∷ drawn "div"
            (("padding", str "20px 26px") ∷ ("maxWidth", num "760") ∷ ("margin", str "0 auto") ∷ [])
            (nodes (
              row none (("gap", num "6") ∷ ("marginBottom", num "8") ∷ []) (
                nodes (
                  chip [] (said "Open")
                  ∷ chip (("color", ac) ∷ ("borderColor", ac) ∷ []) (said "FIXED-ODDS")
                  ∷ []))
              ∷ heading (some (num "20"))
                  (("color", str "var(--wf-ink)") ∷ ("marginBottom", num "14") ∷ [])
                  (said "Will the proposal pass before Q3 2026?")
              ∷ chance
              ∷ chart N show not_a_number
                  (some (map N.of (44 ∷ 47 ∷ 45 ∷ 50 ∷ 53 ∷ 51 ∷ 49 ∷ 55 ∷ 58 ∷ 56 ∷ 60 ∷ 62 ∷ [])))
                  (some (num "200")) (some ac) none (("marginBottom", num "16") ∷ [])
              ∷ row none (("gap", num "10") ∷ ("marginBottom", num "16") ∷ [])
                  (nodes (map fact facts))
              ∷ bet
              ∷ folded
              ∷ ann (some "2") (("marginTop", num "12") ∷ [])
                  (said "B2: chart-dominant, calm; details collapse (best for fixed-odds/casual)")
              ∷ []))
        ∷ []))
