-- ===== src/Wireframe/Alt/Players.antt =====
-- docs/design/wireframes/v2/wireframes-alt.jsx: `Portfolio` and `Leaderboard`.
use adivento.Base.{
  ℕ, ◌+◌, ◌-◌, ◌*◌, ◌%◌, List, [], ◌∷◌, String, none, some, false, true, map, map_idx, ltb, nat_beq,
  if◌then◌else◌, ◌===◌, string_eq,
}
use adivento.Number.{Number}
use adivento.Markup.{str, num, Node, text, Nodes, cons, nodes, drawn, one, said}
use adivento.Wireframe.Kit.{paragraph, row, col, card, pill, btn, label, heading, avatar, ann}
use adivento.Wireframe.Kit.Charts.{chart, sparkline}
use adivento.Wireframe.Dark.{dark, alt_bar}
use adivento.Wireframe.Alt.{ac, wc, pos, Change, up, down, chg}

abbrev items : List String
items = "Home" ∷ "Markets" ∷ "Portfolio" ∷ "Leaderboard" ∷ []

-- The quantity in tens and the change in nineties.
abbrev positions : List (ℕ × Change)
positions = (10, down 1) ∷ (40, up 2) ∷ (25, down 1) ∷ []

-- `d * 90`
abbrev times_ninety : Change → Change
times_ninety (up n) = up (n * 90)
times_ninety (down n) = down (n * 90)

-- The heads of a table, of which one is wide.
heads : {A : Type 0} → String → String → List String → Node A
unfolding row paragraph
heads padding wide hs =
    row none (("padding", str padding) ∷ ("borderBottom", str "1.5px solid var(--wf-faint)") ∷ []) (
      nodes (
        map
          (λ h.
            paragraph (some (num "10")) true (("flex", num (if h === wide then "2" else "1")) ∷ [])
              (said h))
          hs))

module _ (N : Number) (show : N.Num → String) (not_a_number : N.Num) {A : Type 0} where
  abbrev number : ℕ → Node A
  number n = text (show (N.of n))

  abbrev cell : Nodes A → Node A
  cell ns = paragraph (some (num "11.5")) true (("flex", num "1") ∷ []) ns

  position : ℕ → ℕ × Change → Node A
  unfolding row paragraph chg
  position i p =
      let odd = nat_beq (i % 2) 1 in
      row none
        (("padding", str "11px 14px")
          ∷ ("borderBottom", str "1px solid var(--wf-faint)")
          ∷ ("alignItems", str "center")
          ∷ [])
        (nodes (
          paragraph (some (num "12")) false (("flex", num "2") ∷ [])
            (cons (text "Will the proposal pass before Q") (cons (number i) (said "?")))
          ∷ paragraph (some (num "11.5")) false
              (("flex", num "1") ∷ ("color", if odd then wc else ac) ∷ [])
              (said (if odd then "NO" else "YES"))
          ∷ cell (one (number (p.0 * 10)))
          ∷ cell (cons (text "5") (cons (number i) (said "¢")))
          ∷ cell (cons (text "6") (cons (number i) (said "¢")))
          ∷ drawn "div" (("flex", num "1") ∷ []) (one (chg N show (times_ninety p.1)))
          ∷ []))

  portfolio_head : Node A
  unfolding row col paragraph chg btn
  portfolio_head =
      row none
        (("justifyContent", str "space-between")
          ∷ ("marginBottom", num "14")
          ∷ ("alignItems", str "flex-end")
          ∷ [])
        (nodes (
          col (some (num "4")) [] (
            nodes (
              paragraph (some (num "12")) true [] (said "Portfolio value")
              ∷ row none (("gap", num "12") ∷ ("alignItems", str "baseline") ∷ []) (
                  nodes (
                    drawn "span"
                      (("fontSize", num "34")
                        ∷ ("fontWeight", num "800")
                        ∷ ("color", str "var(--wf-ink)")
                        ∷ [])
                      (said "5,430")
                    ∷ chg N show (up 180)
                    ∷ paragraph (some (num "12")) true [] (said "today")
                    ∷ []))
              ∷ []))
          ∷ btn true false
              (("background", ac) ∷ ("borderColor", ac) ∷ ("color", str "#06121d") ∷ [])
              (said "Request faucet")
          ∷ []))

  unfoldable pub portfolio : Node A
  unfolding dark alt_bar portfolio_head chart label card heads position ann
  portfolio = dark none [] (
      nodes (
        alt_bar (some "Home") (some items) []
        ∷ drawn "div" (("padding", str "20px 26px") ∷ []) (
            nodes (
              portfolio_head
              ∷ chart N show not_a_number
                  (some (map N.of (30 ∷ 35 ∷ 33 ∷ 40 ∷ 44 ∷ 42 ∷ 48 ∷ 52 ∷ 50 ∷ 56 ∷ 54 ∷ 60 ∷ [])))
                  (some (num "160")) (some pos) none (("marginBottom", num "18") ∷ [])
              ∷ label (("marginBottom", num "10") ∷ []) (said "Open positions")
              ∷ card (("padding", num "0") ∷ []) (
                  cons
                    (heads "10px 14px" "MARKET"
                      ("MARKET" ∷ "SIDE" ∷ "QTY" ∷ "AVG" ∷ "NOW" ∷ "P&L" ∷ []))
                    (nodes (map_idx position 0 positions)))
              ∷ ann (some "1") (("marginTop", num "12") ∷ [])
                  (said "C: same dark system → portfolio with equity curve")
              ∷ []))
        ∷ []))

  player : ℕ → Node A
  unfolding row paragraph avatar sparkline
  player i =
      let you = nat_beq i 3 in
      row none
        (("padding", str "11px 16px")
          ∷ ("borderBottom", str "1px solid var(--wf-faint)")
          ∷ ("alignItems", str "center")
          ∷ ("background", str (if you then "var(--wf-accent-soft)" else "transparent"))
          ∷ [])
        (nodes (
          paragraph (some (num "12.5")) false
            (("flex", num "1")
              ∷ ("fontWeight", num "700")
              ∷ ("color", if ltb i 3 then wc else str "var(--wf-ink)")
              ∷ [])
            (one (number (i + 1)))
          ∷ row none (("flex", num "2") ∷ ("gap", num "8") ∷ []) (
              nodes (
                avatar (some (num "22")) []
                ∷ paragraph (some (num "12")) false []
                    (cons (text "player_") (cons (number i) (said (if you then " (you)" else ""))))
                ∷ []))
          ∷ paragraph (some (num "12")) false (("flex", num "1") ∷ ("color", pos) ∷ [])
              (cons (text "+") (one (number (2200 - i * 180))))
          ∷ cell (cons (number (20 - i)) (said "k"))
          ∷ cell (cons (number (64 - i * 2)) (said "%"))
          ∷ drawn "div" (("flex", num "1") ∷ []) (
              one (
                sparkline N show not_a_number
                  (some (map (λ x. N.of (x + i)) (40 ∷ 44 ∷ 42 ∷ 50 ∷ 48 ∷ 55 ∷ []))) (some pos)
                  (some (N.of 56)) (some (N.of 18)) []))
          ∷ []))

  unfoldable pub leaderboard : Node A
  unfolding dark alt_bar heading paragraph row pill card heads player
  leaderboard = dark none [] (
      nodes (
        alt_bar (some "Leaderboard") (some items) []
        ∷ drawn "div" (("padding", str "20px 26px") ∷ []) (
            nodes (
              heading (some (num "22"))
                (("color", str "var(--wf-ink)") ∷ ("marginBottom", num "4") ∷ [])
                (said "Leaderboard")
              ∷ paragraph none true (("marginBottom", num "16") ∷ ("fontSize", num "12") ∷ [])
                  (said "Net P&L across all mechanisms · this week")
              ∷ row none (("gap", num "6") ∷ ("marginBottom", num "14") ∷ []) (
                  nodes (
                    pill true [] (said "All time")
                    ∷ pill false [] (said "This week")
                    ∷ pill false [] (said "By community")
                    ∷ []))
              ∷ card (("padding", num "0") ∷ []) (
                  cons
                    (heads "10px 16px" "PLAYER"
                      ("#" ∷ "PLAYER" ∷ "NET P&L" ∷ "VOLUME" ∷ "WIN" ∷ "TREND" ∷ []))
                    (nodes (map player (0 ∷ 1 ∷ 2 ∷ 3 ∷ 4 ∷ 5 ∷ 6 ∷ 7 ∷ []))))
              ∷ []))
        ∷ []))
