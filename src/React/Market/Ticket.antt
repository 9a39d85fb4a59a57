-- ===== src/React/Market/Ticket.antt =====
-- `BetTicket` of docs/design/system/react/market.jsx: its state, what it draws, and what the clicks
-- and the input do.
pub mod Session
mod Tests
use Prim.Native.String.{◌++◌ as cat}
use adivento.Base.{
  ℕ, Bool, true, false, Option, none, some, List, [], ◌∷◌, ◌++◌, map, if◌then◌else◌, ◌===◌, String,
  string_eq, ◌||◌, ◌&&◌,
}
use adivento.Number.{Number}
use adivento.Markup.{
  Value, str, num, Style, Props, Node, text, element, Nodes, nil, cons, nodes, append, no_props,
  classed, drawn, both, one, said,
}
use adivento.React.Atoms.{card, button}
use adivento.React.Market.Cards.{price_boxes}

-- `show` is the text of a number, `fmt` that of `toLocaleString`, `parse` is `+text`, and `upper` is
-- `toUpperCase`.
module _ (N : Number) (show fmt : N.Num → String) (parse : String → N.Num)
    (upper : String → String) where
  open N use {Num, of, lt, mul, div, sub, round}

  -- The properties of the ticket; `onSubmit` is given.
  pub record Terms : Type 0 where
    pub yes_pct : Num
    pub no_pct : Num
    pub balance : Option Num
    pub quick : List Num

  -- What `onSubmit` is called with.
  pub record Order : Type 0 where
    pub side : String
    pub stake : Num
    pub payout : Num

  -- The state, with the calls of `onSubmit`, the last one first.
  pub record Ticket : Type 0 where
    pub side : String
    pub stake : Num
    pub submitted : List Order

  pub data Action : Type 0 where
    set_side : String → Action
    set_stake : Num → Action
    submit : Order → Action

  unfoldable pub fresh_ticket : Ticket
  fresh_ticket = record { side = "yes"; stake = of 100; submitted = [] }

  unfoldable pub price : Terms → String → Num
  price terms side = if side === "yes" then terms.yes_pct else terms.no_pct

  unfoldable pub payout : Terms → String → Num → Num
  unfolding price
  payout terms side stake =
      let p = price terms side in if lt (of 0) p then round (mul stake (div (of 100) p)) else of 0

  unfoldable pub order_of : Terms → Ticket → Order
  unfolding payout
  order_of terms t = record { side = t.side; stake = t.stake; payout = payout terms t.side t.stake }

  -- `+e.target.value || 0`
  unfoldable pub typed_stake : String → Num
  typed_stake s =
      let n = parse s in if N.is_nan n || (N.le n (of 0) && N.le (of 0) n) then of 0 else n

  unfoldable pub act : Ticket → Action → Ticket
  act t (set_side side) = record t { side = side }
  act t (set_stake stake) = record t { stake = stake }
  act t (submit o) = record t { submitted = o ∷ t.submitted }

  abbrev stake_chip : Num → String → Node Action
  stake_chip q label =
      element "button"
        (record no_props { class_name = some "ds-chip"; on_click = some (set_stake q) })
        (said label)

  abbrev balance_text : Option Num → Nodes Action
  balance_text none = nil
  balance_text (some b) = one (
      classed "span" "ds-muted ds-xs" (cons (text "Balance ") (cons (text (fmt b)) (said " ADIV"))))

  abbrev max_chip : Option Num → Nodes Action
  max_chip none = nil
  max_chip (some b) = one (stake_chip b "Max")

  unfoldable pub stake_field : Num → Node Action
  unfolding typed_stake
  stake_field stake = drawn "div" (("marginTop", num "14") ∷ []) (
      cons (classed "label" "ds-label" (said "Stake")) (
        one (
          classed "div" "ds-input-group" (
            cons
              (element "input"
                (record no_props {
                  class_name = some "ds-input ds-num";
                  attributes = ("type", str "number") ∷ ("value", num (show stake)) ∷ [];
                  on_change = some (λ s. set_stake (typed_stake s));
                })
                nil)
              (one (classed "span" "ds-input-group__suffix" (said "ADIV")))))))

  unfoldable pub chips : Terms → Node Action
  chips terms =
      both "div" "ds-chipset" (("margin", str "12px 0") ∷ [])
        (append (nodes (map (λ q. stake_chip q (show q)) terms.quick)) (max_chip terms.balance))

  unfoldable pub summary : Num → Num → Nodes Action
  summary stake pays =
      cons
        (classed "div" "ds-ticket__summary" (
          cons (classed "span" "ds-muted" (said "Potential profit"))
            (one (classed "span" "ds-num" (cons (text "+") (said (fmt (sub pays stake))))))))
        (one (
          classed "div" "ds-ticket__summary ds-ticket__summary--total" (
            cons (drawn "span" [] (said "Payout if win"))
              (one (classed "span" "ds-ticket__payout ds-num" (said (fmt pays)))))))

  unfoldable pub buy_button : Order → Node Action
  unfolding button
  buy_button o =
      button (some (if o.side === "yes" then "yes" else "no")) (some "lg") true none none
        (record no_props { style = ("marginTop", num "12") ∷ []; on_click = some (submit o) })
        (nodes
          (text "Buy " ∷ text (upper o.side) ∷ text " · " ∷ text (fmt o.stake) ∷ text " ADIV" ∷ []))

  unfoldable pub bet_ticket : Terms → Ticket → Node Action
  unfolding order_of price_boxes stake_field chips summary buy_button card
  bet_ticket terms t =
      let o = order_of terms t in
      card false false false (some "ds-ticket") no_props (
        cons
          (classed "div" "ds-card__head"
            (cons (classed "span" "ds-h3" (said "Your bet")) (balance_text terms.balance)))
          (cons
            (price_boxes (show terms.yes_pct) (show terms.no_pct) none none (some t.side)
              (some set_side) "¢")
            (cons (stake_field t.stake)
              (cons (chips terms) (append (summary t.stake o.payout) (one (buy_button o)))))))
