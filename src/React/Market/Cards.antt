-- ===== src/React/Market/Cards.antt =====
-- `MarketCard`, `PriceBoxes`, `StatStrip` and `Callout` of docs/design/system/react/market.jsx.
-- Numbers are shown by their text.
use Prim.Native.String.{◌++◌ as cat}
use adivento.Base.{
  Bool, false, Option, none, some, List, [], ◌∷◌, map, if◌then◌else◌, ◌===◌, String, string_eq,
  or_else,
}
use adivento.Number.{Number}
use adivento.Markup.{
  str, num, Node, text, element, Nodes, nil, cons, nodes, append, when_text, no_props, classed,
  drawn, both, one, said, cx, name_if, prefixed,
}
use adivento.React.Atoms.{badge, mech_chip, card, delta}

module _ (N : Number) (show : N.Num → String) (upper : String → String) where
  open N use {Num}

  -- The fields of `market` that the card reads; `spark` are the points of its sparkline.
  pub record Market : Type 0 where
    pub question : String
    pub status : Option String
    pub mechanism : Option String
    pub yes_pct : Option Num
    pub volume_label : Option String
    pub closes_label : Option String
    pub spark : Option (List Num)
    pub delta : Option Num
    pub live : Option Bool

  -- `spark ? <Sparkline/> : delta != null ? <Delta/> : null`; `sparkline` draws the points.
  abbrev trend : {A : Type 0} → (List Num → Node A) → Option (List Num) → Option Num → Nodes A
  trend sparkline (some points) d = one (sparkline points)
  trend sparkline none none = nil
  trend sparkline none (some d) = one (delta N show d "")

  -- `on_open` is what a call of `onOpen(market)` does, if it is given.
  unfoldable pub market_card :
      {A : Type 0} → (List Num → Node A) → Option A → String → Market → Node A
  market_card sparkline on_open suffix m =
      let status = or_else m.status "open" in
      let pct = show (or_else m.yes_pct (N.of 50)) in
      card false false false (some "ds-market")
        (record no_props { style = ("cursor", str "pointer") ∷ []; on_click = on_open })
        (nodes (
          classed "div" "ds-market__top" (
            nodes (
              badge (some status) (or_else m.live (status === "open")) nil
              ∷ mech_chip upper (or_else m.mechanism "fixed")
              ∷ []))
          ∷ classed "div" "ds-market__q" (said m.question)
          ∷ classed "div" "ds-probar"
              (one (both "div" "ds-probar__fill" (("width", str (cat pct "%")) ∷ []) nil))
          ∷ classed "div" "ds-row ds-row--between" (
              cons (classed "span" "ds-market__pct ds-num" (cons (text pct) (said suffix)))
                (trend sparkline m.spark m.delta))
          ∷ classed "div" "ds-market__foot" (
              nodes (
                drawn "span" [] (said (or_else m.volume_label ""))
                ∷ drawn "span" [] (said (or_else m.closes_label ""))
                ∷ []))
          ∷ []))

module _ {A : Type 0} where
  -- One box of `PriceBoxes`, with the text of the price and of the payout.
  unfoldable pub price_box :
      Option String → Option (String → A) → String → String → String → Option String → Node A
  unfolding cx
  price_box selected on_select suffix side pct payout =
      element "div"
        (record no_props {
          class_name = some (
              cx (
                some "ds-pricebox"
                ∷ some (cat "ds-pricebox--" side)
                ∷ name_if (elim selected [ none ↦ false | some s ↦ s === side ]) "is-selected"
                ∷ []));
          attributes = ("data-price", num pct) ∷ [];
          on_click = elim on_select [ none ↦ none | some f ↦ some (f side) ];
        })
        (cons (classed "div" "ds-pricebox__label" (said (if side === "yes" then "Yes" else "No"))) (
          cons (classed "div" "ds-pricebox__val ds-num" (cons (text pct) (said suffix))) (
            when_text payout
              (λ p. classed "div" "ds-pricebox__sub" (cons (text "pays ") (said p))))))

  unfoldable pub price_boxes :
      String
      → String
      → Option String
      → Option String
      → Option String
      → Option (String → A)
      → String
      → Node A
  unfolding price_box
  price_boxes yes_pct no_pct yes_payout no_payout selected on_select suffix =
      classed "div" "ds-prices" (
        nodes (
          price_box selected on_select suffix "yes" yes_pct yes_payout
          ∷ price_box selected on_select suffix "no" no_pct no_payout
          ∷ []))

  unfoldable pub stat_strip : List (String × String) → Node A
  stat_strip stats = classed "div" "ds-stats" (
      nodes (
        map
          (λ s. classed "div" "ds-stat" (
            nodes (
              classed "div" "ds-stat__k" (said s.0)
              ∷ classed "div" "ds-stat__v ds-num" (said s.1)
              ∷ [])))
          stats))

  unfoldable pub callout : Option String → Option String → Option String → Nodes A → Node A
  unfolding cx
  callout variant icon title children =
      classed "div" (cx (some "ds-callout" ∷ prefixed "ds-callout--" variant ∷ [])) (
        append (when_text icon (λ i. classed "span" "ds-callout__icon" (said i))) (
          one (
            drawn "div" [] (
              append (when_text title (λ t. drawn "strong" [] (said t)))
                (one (classed "div" "ds-small ds-muted" children))))))
