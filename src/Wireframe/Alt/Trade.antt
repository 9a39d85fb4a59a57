-- ===== src/Wireframe/Alt/Trade.antt =====
-- docs/design/wireframes/v2/wireframes-alt.jsx: `TradeTerminal`, a market with its chart, its order
-- book and a ticket.
use Prim.Native.String.{◌++◌ as cat}
use adivento.Base.{ℕ, zero, suc, ◌*◌, List, [], ◌∷◌, String, none, some, false, true, map, map_idx}
use adivento.Number.{Number}
use adivento.Markup.{
  str, num, Value, Node, text, nil, cons, nodes, append, drawn, one, said, no_props,
}
use adivento.Wireframe.Kit.{
  paragraph, row, col, card, chip, pill, box, btn, field, label, heading, ann,
}
use adivento.Wireframe.Kit.Charts.{chart}
use adivento.Wireframe.Dark.{dark, alt_bar}
use adivento.Wireframe.Alt.{ac, wc, pos, faint, soft, cap, up, chg}

abbrev facts : List (String × String)
facts = ("24h vol", "24k") ∷ ("Liquidity", "88k") ∷ ("Holders", "146") ∷ ("Spread", "3¢") ∷ []

abbrev ask_levels : List (String × ℕ)
ask_levels = ("57", 30) ∷ ("56", 55) ∷ ("55", 80) ∷ []

abbrev bid_levels : List (String × ℕ)
bid_levels = ("54", 70) ∷ ("53", 45) ∷ ("52", 25) ∷ []

module _ (N : Number) (show : N.Num → String) (not_a_number : N.Num) {A : Type 0} where
  -- A fact under the chart; all but the first stand behind a line.
  fact : ℕ → String × String → Node A
  unfolding col paragraph
  fact i f =
      col (some (num "2"))
        (("flex", num "1")
          ∷ ("borderLeft", if_first i (num "0") (str "1px solid var(--wf-faint)"))
          ∷ ("paddingLeft", if_first i (num "0") (num "12"))
          ∷ [])
        (nodes (
          drawn "div" cap (said f.0)
          ∷ paragraph (some (num "14")) false [] (one (drawn "b" [] (said f.1)))
          ∷ []))
    where
      if_first : ℕ → Value → Value → Value
      if_first zero a b = a
      if_first (suc n) a b = b

  -- A level of the book, with its bar.
  level : Value → String → String × ℕ → Node A
  unfolding row paragraph
  level color background l =
      row none
        (("justifyContent", str "space-between")
          ∷ ("position", str "relative")
          ∷ ("padding", str "3px 0")
          ∷ [])
        (nodes (
          drawn "div"
            (("position", str "absolute")
              ∷ ("right", num "0")
              ∷ ("top", num "0")
              ∷ ("bottom", num "0")
              ∷ ("width", str (cat (show (N.of l.1)) "%"))
              ∷ ("background", str background)
              ∷ [])
            nil
          ∷ paragraph (some (num "11.5")) false (("color", color) ∷ ("zIndex", num "1") ∷ [])
              (cons (text l.0) (said "¢"))
          ∷ paragraph (some (num "11.5")) true (("zIndex", num "1") ∷ [])
              (said (show (N.of (l.1 * 4))))
          ∷ []))

  book : Node A
  unfolding card label level row paragraph
  book = card (("padding", num "12") ∷ []) (
      cons (label (("marginBottom", num "8") ∷ []) (said "Order book")) (
        append (nodes (map (level wc "var(--wf-warn-soft)") ask_levels)) (
          cons
            (row none (("justifyContent", str "center") ∷ ("padding", str "5px 0") ∷ [])
              (one (paragraph (some (num "11")) true [] (said "spread 3¢ · last 55¢"))))
            (nodes (map (level ac "var(--wf-accent-soft)") bid_levels)))))

  ticket_row : String → String → Node A
  unfolding row paragraph
  ticket_row name value = row none (("justifyContent", str "space-between") ∷ []) (
      nodes (
        paragraph (some (num "11")) true [] (said name)
        ∷ paragraph (some (num "12")) false [] (one (drawn "b" [] (said value)))
        ∷ []))

  ticket : Node A
  unfolding card row box label field pill ticket_row btn
  ticket = card (("padding", num "12") ∷ []) (
      nodes (
        row none (("gap", num "6") ∷ ("marginBottom", num "10") ∷ []) (
          nodes (
            box false
              (("flex", num "1")
                ∷ ("textAlign", str "center")
                ∷ ("padding", str "7px 0")
                ∷ ("borderWidth", num "2")
                ∷ ("borderColor", pos)
                ∷ ("fontSize", num "12")
                ∷ [])
              no_props (one (drawn "b" (("color", pos) ∷ []) (said "Buy")))
            ∷ box false
                (("flex", num "1")
                  ∷ ("textAlign", str "center")
                  ∷ ("padding", str "7px 0")
                  ∷ ("borderColor", faint)
                  ∷ ("fontSize", num "12")
                  ∷ [])
                no_props (one (drawn "b" (("color", soft) ∷ []) (said "Sell")))
            ∷ []))
        ∷ label (("marginBottom", num "5") ∷ []) (said "Price ¢")
        ∷ field (some "54") (("marginBottom", num "8") ∷ [])
        ∷ label (("marginBottom", num "5") ∷ []) (said "Quantity")
        ∷ field (some "10") (("marginBottom", num "8") ∷ [])
        ∷ row none (("gap", num "5") ∷ ("marginBottom", num "10") ∷ []) (
            nodes (
              pill true [] (said "GTC")
              ∷ pill false [] (said "IOC")
              ∷ pill false [] (said "FOK")
              ∷ []))
        ∷ box false
            (("padding", num "9")
              ∷ ("background", str "var(--wf-fill)")
              ∷ ("borderColor", faint)
              ∷ ("marginBottom", num "10")
              ∷ [])
            no_props (nodes (ticket_row "Cost" "540" ∷ ticket_row "Max payout" "1,000" ∷ []))
        ∷ btn true false
            (("width", str "100%")
              ∷ ("justifyContent", str "center")
              ∷ ("background", pos)
              ∷ ("borderColor", pos)
              ∷ ("color", str "#06140d")
              ∷ [])
            (said "Buy 10 @ 54¢")
        ∷ []))

  title_row : Node A
  unfolding row heading chg
  title_row = row none (("justifyContent", str "space-between") ∷ ("marginBottom", num "12") ∷ []) (
      nodes (
        heading (some (num "18")) (("color", str "var(--wf-ink)") ∷ [])
          (said "Will the proposal pass before Q3 2026?")
        ∷ row none (("gap", num "10") ∷ ("alignItems", str "baseline") ∷ []) (
            nodes (
              drawn "span" (("fontSize", num "26") ∷ ("fontWeight", num "800") ∷ ("color", ac) ∷ [])
                (said "54¢")
              ∷ chg N show (up 2)
              ∷ []))
        ∷ []))

  chart_column : Node A
  unfolding col chart row fact
  chart_column = col (some (num "10")) [] (
      nodes (
        chart N show not_a_number
          (some (map N.of (40 ∷ 44 ∷ 42 ∷ 48 ∷ 46 ∷ 52 ∷ 50 ∷ 55 ∷ 53 ∷ 58 ∷ 56 ∷ 54 ∷ [])))
          (some (num "210")) (some ac) none []
        ∷ row none (("gap", num "0") ∷ []) (nodes (map_idx fact 0 facts))
        ∷ []))

  unfoldable pub trade_terminal : Node A
  unfolding dark alt_bar row chip paragraph title_row chart_column book ticket ann
  trade_terminal = dark none [] (
      nodes (
        alt_bar (some "Markets") none []
        ∷ drawn "div" (("padding", str "14px 20px") ∷ []) (
            nodes (
              row none (("gap", num "6") ∷ ("marginBottom", num "8") ∷ []) (
                nodes (
                  chip [] (said "Open")
                  ∷ chip (("color", ac) ∷ ("borderColor", ac) ∷ []) (said "CLOB")
                  ∷ paragraph (some (num "11")) true [] (said "· Politics · closes 6d")
                  ∷ []))
              ∷ title_row
              ∷ drawn "div"
                  (("display", str "grid")
                    ∷ ("gridTemplateColumns", str "1.6fr 0.8fr 0.9fr")
                    ∷ ("gap", num "14")
                    ∷ [])
                  (nodes (chart_column ∷ book ∷ ticket ∷ []))
              ∷ ann (some "1") (("marginTop", num "10") ∷ [])
                  (said "B1: full trading terminal — chart · order book · ticket (best for CLOB)")
              ∷ []))
        ∷ []))
