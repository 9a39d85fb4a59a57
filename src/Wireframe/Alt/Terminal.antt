-- ===== src/Wireframe/Alt/Terminal.antt =====
-- docs/design/wireframes/v2/wireframes-alt.jsx: `Terminal`, the dashboard of markets.
use adivento.Base.{
  ℕ, zero, suc, ◌+◌, ◌-◌, ◌*◌, ◌%◌, List, [], ◌∷◌, String, none, some, false, true, map, map_idx,
  get_elem?, or_else, if◌then◌else◌, ◌===◌, string_eq,
}
use adivento.Number.{Number}
use adivento.Markup.{str, num, Node, text, Nodes, nil, cons, nodes, drawn, one, said, no_props}
use adivento.Wireframe.Kit.{paragraph, row, card, chip, pill, box, ann}
use adivento.Wireframe.Dark.{dark, alt_sidebar}
use adivento.Wireframe.Alt.{ac, faint, cap, Change, up, down, chg}

abbrev figures : List (String × String × Change)
figures =
    ("Portfolio", "5,430", up 180)
    ∷ ("Available", "4,250", up 0)
    ∷ ("Open positions", "12", up 0)
    ∷ ("Today P&L", "+180", up 180)
    ∷ []

abbrev columns : List String
columns = "MARKET" ∷ "MECH" ∷ "CHANCE" ∷ "24H" ∷ "VOLUME" ∷ "CLOSES" ∷ "" ∷ []

abbrev quotes : List (ℕ × Change)
quotes = (62, up 4) ∷ (54, down 2) ∷ (71, up 9) ∷ (48, up 1) ∷ (33, down 5) ∷ (60, up 3) ∷ []

-- `['FIXED', 'CLOB', 'LMSR', 'PARI'][i % 4]`
abbrev mechanism : ℕ → String
mechanism i = or_else (get_elem? ("FIXED" ∷ "CLOB" ∷ "LMSR" ∷ "PARI" ∷ []) (i % 4)) ""

column : {A : Type 0} → String → Node A
unfolding paragraph
column h =
    paragraph (some (num "10")) true (("flex", num (if h === "MARKET" then "2" else "1")) ∷ [])
      (said h)

module _ (N : Number) (show : N.Num → String) {A : Type 0} where
  -- `d ? chg(d) : null`
  trend : Change → Nodes A
  unfolding chg
  trend (up zero) = nil
  trend (up (suc n)) = one (chg N show (up (suc n)))
  trend (down zero) = nil
  trend (down (suc n)) = one (chg N show (down (suc n)))

  figure : String × String × Change → Node A
  unfolding box row trend
  figure f =
      box false (("flex", num "1") ∷ ("padding", str "10px 13px") ∷ ("borderColor", faint) ∷ [])
        no_props
        (nodes (
          drawn "div" cap (said f.0)
          ∷ row none
              (("justifyContent", str "space-between")
                ∷ ("alignItems", str "baseline")
                ∷ ("marginTop", num "3")
                ∷ [])
              (cons
                (drawn "span" (("fontSize", num "18") ∷ ("fontWeight", num "800") ∷ []) (said f.1))
                (trend f.2))
          ∷ []))

  abbrev cell : Nodes A → Node A
  cell ns = drawn "div" (("flex", num "1") ∷ []) ns

  abbrev number : ℕ → Node A
  number n = text (show (N.of n))

  quote : ℕ → ℕ × Change → Node A
  unfolding row paragraph chip chg pill
  quote i q =
      row none
        (("padding", str "11px 14px")
          ∷ ("borderBottom", str "1px solid var(--wf-faint)")
          ∷ ("alignItems", str "center")
          ∷ [])
        (nodes (
          paragraph (some (num "12")) false (("flex", num "2") ∷ [])
            (cons (text "Will the proposal pass before Q") (cons (number i) (said "?")))
          ∷ cell (one (chip (("color", ac) ∷ ("borderColor", ac) ∷ []) (said (mechanism i))))
          ∷ cell (
              one (
                drawn "span"
                  (("fontSize", num "14") ∷ ("fontWeight", num "800") ∷ ("color", ac) ∷ [])
                  (cons (number q.0) (said "%"))))
          ∷ cell (one (chg N show q.1))
          ∷ paragraph (some (num "11.5")) true (("flex", num "1") ∷ [])
              (cons (number (120 - i * 8)) (said "k"))
          ∷ paragraph (some (num "11.5")) true (("flex", num "1") ∷ [])
              (cons (number (i + 2)) (said "d"))
          ∷ cell (one (pill false (("color", ac) ∷ ("borderColor", ac) ∷ []) (said "Trade")))
          ∷ []))

  table : Node A
  unfolding card row column quote
  table = card (("padding", num "0") ∷ []) (
      cons
        (row none
          (("justifyContent", str "space-between")
            ∷ ("padding", str "10px 14px")
            ∷ ("borderBottom", str "1.5px solid var(--wf-faint)")
            ∷ [])
          (nodes (map column columns)))
        (nodes (map_idx quote 0 quotes)))

  unfoldable pub terminal : Node A
  unfolding dark alt_sidebar row figure table ann
  terminal = dark none [] (
      one (
        drawn "div" (("display", str "flex") ∷ ("height", str "100%") ∷ []) (
          nodes (
            alt_sidebar (some "Markets") []
            ∷ drawn "div"
                (("flex", num "1") ∷ ("padding", str "16px 20px") ∷ ("overflow", str "hidden") ∷ [])
                (nodes (
                  row none (("gap", num "12") ∷ ("marginBottom", num "14") ∷ [])
                    (nodes (map figure figures))
                  ∷ table
                  ∷ ann (some "3") (("marginTop", num "12") ∷ []) (
                      said
                        "IA: power-user dashboard — watchlist + sortable table + portfolio strip")
                  ∷ []))
            ∷ []))))
