-- ===== src/Wireframe/Alt/Feed.antt =====
-- docs/design/wireframes/v2/wireframes-alt.jsx: `Feed`, the home that starts with what happens.
use adivento.Base.{
  ℕ, suc, List, [], ◌∷◌, String, none, some, false, true, map, map_idx, ltb, if◌then◌else◌, ◌===◌,
  string_eq,
}
use adivento.Number.{Number}
use adivento.Markup.{str, num, Value, Style, Node, text, cons, nodes, append, drawn, one, said}
use adivento.Wireframe.Kit.{paragraph, col, row, card, chip, label, avatar, ann}
use adivento.Wireframe.Kit.Charts.{sparkline}
use adivento.Wireframe.Dark.{dark, alt_bar}
use adivento.Wireframe.Alt.{ac, pos, soft, Change, up, down, chg}

abbrev trending : List (String × Change)
trending = ("62%", up 4) ∷ ("54¢", down 2) ∷ ("71%", up 9) ∷ []

-- Who, what, how much, and the kind.
record Activity : Type 0 where
  who : String
  what : String
  amount : String
  kind : String

abbrev activities : List Activity
activities =
    record { who = "player_alex"; what = "bought YES"; amount = "+120 @ 60¢"; kind = "trade" }
    ∷ record {
      who = "Market resolved";
      what = "YES — “Rate cut in June”";
      amount = "paid 1,240 ADIV";
      kind = "resolve";
    }
    ∷ record {
      who = "player_sam";
      what = "opened a community market";
      amount = "Office League";
      kind = "market";
    }
    ∷ record { who = "player_lee"; what = "bought NO"; amount = "−80 @ 41¢"; kind = "trade" }
    ∷ []

abbrev watched : List (String × String × Change)
watched =
    ("Senate vote", "62%", up 4) ∷ ("BTC > 100k", "54¢", down 2) ∷ ("Cup final", "48%", up 1) ∷ []

module _ (N : Number) (show : N.Num → String) (not_a_number : N.Num) {A : Type 0} where
  abbrev spark : List ℕ → Value → ℕ → Style → Node A
  spark points color h style =
      sparkline N show not_a_number (some (map N.of points)) (some color) (some (N.of 250))
        (some (N.of h)) style

  trending_card : String × Change → Node A
  unfolding card paragraph row chg
  trending_card t = card (("flex", num "1") ∷ ("padding", num "12") ∷ []) (
      nodes (
        paragraph (some (num "11.5")) false
          (("fontWeight", num "600")
            ∷ ("marginBottom", num "8")
            ∷ ("height", num "32")
            ∷ ("overflow", str "hidden")
            ∷ [])
          (said "Will the proposal pass before Q3?")
        ∷ row none (("justifyContent", str "space-between") ∷ ("alignItems", str "flex-end") ∷ []) (
            nodes (
              drawn "span" (("fontSize", num "22") ∷ ("fontWeight", num "800") ∷ ("color", ac) ∷ [])
                (said t.0)
              ∷ chg N show t.1
              ∷ []))
        ∷ spark (48 ∷ 50 ∷ 47 ∷ 53 ∷ 55 ∷ 58 ∷ 62 ∷ []) ac 26
            (("marginTop", num "6") ∷ ("width", str "100%") ∷ [])
        ∷ []))

  activity_card : ℕ → Activity → Node A
  unfolding card row avatar col paragraph chip
  activity_card i a = card (("padding", num "12") ∷ []) (
      one (
        row none (("gap", num "10") ∷ ("alignItems", str "center") ∷ []) (
          nodes (
            avatar (some (num "28")) []
            ∷ col (some (num "2")) (("flex", num "1") ∷ []) (
                nodes (
                  paragraph (some (num "12.5")) false [] (
                    nodes (
                      drawn "b" [] (said a.who)
                      ∷ text " "
                      ∷ drawn "span" (("color", soft) ∷ []) (said a.what)
                      ∷ []))
                  ∷ paragraph (some (num "11")) true [] (
                      nodes (
                        text a.amount
                        ∷ text " · "
                        ∷ text (show (N.of (suc i)))
                        ∷ text "m ago"
                        ∷ []))
                  ∷ []))
            ∷ chip
                (("color", if a.kind === "resolve" then pos else ac)
                  ∷ ("borderColor", str "currentColor")
                  ∷ [])
                (said a.kind)
            ∷ []))))

  -- A line of the portfolio.
  portfolio_row : String → Node A → Node A
  unfolding row paragraph
  portfolio_row name value =
      row none (("justifyContent", str "space-between") ∷ [])
        (nodes (paragraph (some (num "11.5")) true [] (said name) ∷ value ∷ []))

  portfolio : Node A
  unfolding card label portfolio_row paragraph chg
  portfolio = card [] (
      nodes (
        label (("marginBottom", num "8") ∷ []) (said "Your portfolio")
        ∷ portfolio_row "Value"
            (paragraph (some (num "13")) false [] (one (drawn "b" [] (said "5,430"))))
        ∷ portfolio_row "Today" (chg N show (up 180))
        ∷ spark (40 ∷ 45 ∷ 43 ∷ 50 ∷ 55 ∷ 52 ∷ 60 ∷ []) pos 28
            (("marginTop", num "8") ∷ ("width", str "100%") ∷ [])
        ∷ []))

  watched_row : ℕ → String × String × Change → Node A
  unfolding row paragraph chg
  watched_row i w =
      row none
        (("justifyContent", str "space-between")
          ∷ ("padding", str "6px 0")
          ∷ ("borderBottom", if ltb i 2 then str "1px solid var(--wf-faint)" else num "0")
          ∷ [])
        (nodes (
          paragraph (some (num "11.5")) false [] (said w.0)
          ∷ row none (("gap", num "8") ∷ []) (
              nodes (
                paragraph (some (num "12")) false [] (one (drawn "b" [] (said w.1)))
                ∷ chg N show w.2
                ∷ []))
          ∷ []))

  watchlist : Node A
  unfolding card label watched_row
  watchlist = card [] (
      cons (label (("marginBottom", num "8") ∷ []) (said "Watchlist"))
        (nodes (map_idx watched_row 0 watched)))

  -- The left column.
  stream : Node A
  unfolding col label row trending_card activity_card ann
  stream = col (some (num "14")) [] (
      cons (label [] (said "🔥 Trending now")) (
        cons (row none (("gap", num "12") ∷ []) (nodes (map trending_card trending))) (
          cons (label (("marginTop", num "6") ∷ []) (said "Activity feed")) (
            append (nodes (map_idx activity_card 0 activities)) (
              one (
                ann (some "1") []
                  (said "IA: home = a live feed; discover via trending + who you follow")))))))

  unfoldable pub feed : Node A
  unfolding dark alt_bar stream col portfolio watchlist
  feed = dark none [] (
      nodes (
        alt_bar (some "Home") none []
        ∷ drawn "div"
            (("padding", str "18px 24px")
              ∷ ("display", str "grid")
              ∷ ("gridTemplateColumns", str "1fr 300px")
              ∷ ("gap", num "20")
              ∷ [])
            (nodes (stream ∷ col (some (num "14")) [] (nodes (portfolio ∷ watchlist ∷ [])) ∷ []))
        ∷ []))
