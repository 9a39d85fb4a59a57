-- ===== src/Wireframe/Alt/Hub.antt =====
-- docs/design/wireframes/v2/wireframes-alt.jsx: `Hub`, the markets by category.
use adivento.Base.{
  ℕ, List, [], ◌∷◌, String, none, some, false, true, map, map_idx, get_elem?, or_else,
  if◌then◌else◌, ◌===◌, nat_eq,
}
use adivento.Number.{Number}
use adivento.Markup.{str, num, Node, text, cons, nodes, append, drawn, both, said}
use adivento.Wireframe.Kit.{paragraph, row, card, chip, label, heading, field, divider, ann}
use adivento.Wireframe.Kit.Charts.{sparkline}
use adivento.Wireframe.Dark.{dark, alt_bar}
use adivento.Wireframe.Alt.{ac, soft}

abbrev categories : List String
categories = "All markets" ∷ "Politics" ∷ "Sports" ∷ "Crypto" ∷ "Macro" ∷ "Culture" ∷ []

abbrev communities : List String
communities = "Office League" ∷ "Crypto Club" ∷ []

-- The second category is the one that is shown.
category : {A : Type 0} → ℕ → String → Node A
category i t =
    let on = i === 1 in
    drawn "span"
      (("fontSize", num "12.5")
        ∷ ("fontWeight", num (if on then "700" else "500"))
        ∷ ("color", if on then ac else soft)
        ∷ ("padding", str "8px 9px")
        ∷ ("borderRadius", num "6")
        ∷ ("background", str (if on then "var(--wf-accent-soft)" else "transparent"))
        ∷ [])
      (said t)

community : {A : Type 0} → String → Node A
community t =
    drawn "span" (("fontSize", num "12.5") ∷ ("color", soft) ∷ ("padding", str "7px 9px") ∷ [])
      (cons (text "👥 ") (said t))

caption : {A : Type 0} → String → Node A
unfolding paragraph
caption t =
    paragraph (some (num "10")) true
      (("padding", str "0 8px 6px")
        ∷ ("textTransform", str "uppercase")
        ∷ ("letterSpacing", str ".05em")
        ∷ [])
      (said t)

side : {A : Type 0} → Node A
unfolding caption category divider community
side =
    both "div" "wf-col"
      (("width", num "150")
        ∷ ("borderRight", str "1.5px solid var(--wf-faint)")
        ∷ ("padding", str "16px 10px")
        ∷ ("gap", num "3")
        ∷ ("background", str "#10141d")
        ∷ [])
      (cons (caption "Categories") (
        append (nodes (map_idx category 0 categories)) (
          cons (divider (("margin", str "10px 4px") ∷ []))
            (cons (caption "Communities") (nodes (map community communities))))))

-- `['FIXED', 'CLOB', 'LMSR'][i]`
abbrev mechanism : ℕ → String
mechanism i = or_else (get_elem? ("FIXED" ∷ "CLOB" ∷ "LMSR" ∷ []) i) ""

module _ (N : Number) (show : N.Num → String) (not_a_number : N.Num) {A : Type 0} where
  market : ℕ → Node A
  unfolding card row chip paragraph
  market i = card (("padding", num "12") ∷ []) (
      nodes (
        row none (("gap", num "4") ∷ ("marginBottom", num "7") ∷ []) (
          nodes (
            chip [] (said "Open")
            ∷ chip (("color", ac) ∷ ("borderColor", ac) ∷ []) (said (mechanism i))
            ∷ []))
        ∷ paragraph (some (num "12")) false
            (("fontWeight", num "600")
              ∷ ("marginBottom", num "9")
              ∷ ("height", num "30")
              ∷ ("overflow", str "hidden")
              ∷ [])
            (said "Will the bill pass committee?")
        ∷ row none (("justifyContent", str "space-between") ∷ ("alignItems", str "center") ∷ []) (
            nodes (
              drawn "span" (("fontSize", num "18") ∷ ("fontWeight", num "800") ∷ ("color", ac) ∷ [])
                (cons (text "6") (cons (text (show (N.of i))) (said "%")))
              ∷ sparkline N show not_a_number (some (map N.of (50 ∷ 52 ∷ 49 ∷ 55 ∷ 58 ∷ 62 ∷ [])))
                  (some ac) none none []
              ∷ []))
        ∷ []))

  group : String → Node A
  unfolding label market
  group title = drawn "div" (("marginBottom", num "18") ∷ []) (
      nodes (
        label (("marginBottom", num "10") ∷ []) (said title)
        ∷ drawn "div"
            (("display", str "grid")
              ∷ ("gridTemplateColumns", str "repeat(3,1fr)")
              ∷ ("gap", num "12")
              ∷ [])
            (nodes (map market (0 ∷ 1 ∷ 2 ∷ [])))
        ∷ []))

  unfoldable pub hub : Node A
  unfolding dark alt_bar side row heading field paragraph group ann
  hub = dark none [] (
      nodes (
        alt_bar (some "Markets") none []
        ∷ drawn "div" (("display", str "flex") ∷ ("height", str "calc(100% - 50px)") ∷ []) (
            nodes (
              side
              ∷ drawn "div"
                  (("flex", num "1")
                    ∷ ("padding", str "18px 22px")
                    ∷ ("overflow", str "hidden")
                    ∷ [])
                  (nodes (
                    row none
                      (("justifyContent", str "space-between") ∷ ("marginBottom", num "6") ∷ [])
                      (nodes (
                        heading (some (num "20")) (("color", str "var(--wf-ink)") ∷ [])
                          (said "Politics")
                        ∷ field (some "Sort: Volume ▾") (("width", num "150") ∷ [])
                        ∷ []))
                    ∷ paragraph none true (("marginBottom", num "16") ∷ ("fontSize", num "12") ∷ [])
                        (said "34 open markets")
                    ∷ group "Featured"
                    ∷ group "Closing soon"
                    ∷ ann (some "2") []
                        (said "IA: browse-by-topic; categories + communities as first-class nav")
                    ∷ []))
              ∷ []))
        ∷ []))
