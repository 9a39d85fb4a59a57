-- ===== src/Canvas/Drag.antt =====
-- docs/design/wireframes/v2/design-canvas.jsx, `onGripDown` of `DCArtboardFrame`: an artboard is
-- dragged by its grip and dropped. The transforms of the cards are left out; a home is a card with
-- the left edge that it has when the drag begins.
pub mod Nearest
pub mod Drop
mod Tests
use adivento.Base.{
  join, ℕ, suc, String, Bool, true, false, not, Option, none, some, List, [], ◌∷◌, map, filter,
  insert_at, index_of, get_elem?, ◌===◌, string_eq, nat_eq, if◌then◌else◌,
}
use adivento.Number.{Number}

-- `liveOrder.indexOf(id) !== nearest`, negated
pub stands_at : Option ℕ → ℕ → Bool
stands_at none n = false
stands_at (some i) n = i === n

-- `liveOrder`, after the nearest slot was found
pub reorder : String → List String → ℕ → List String → List String
unfolding stands_at
reorder id order nearest live =
    if stands_at (index_of live id) nearest
    then live
    else insert_at nearest id (filter (λ k. not (k === id)) order)

module _ (N : Number) where
  open N use {Num, add, sub, abs, lt, infinity}

  pub record Drag : Type 0 where
    pub id : String
    pub order : List String
    pub homes : List Num
    pub start_idx : Option ℕ
    pub start_x : Num
    pub live_order : List String

  -- `onGripDown` at `clientX`
  pub grab : String → List String → List Num → Num → Drag
  grab id order homes x = record {
    id = id;
    order = order;
    homes = homes;
    start_idx = index_of order id;
    start_x = x;
    live_order = order;
  }

  -- The loop over `slotXs`, with its `best` and `nearest`, from the index `i`
  pub scan : Num → ℕ → ℕ → List Num → Num × ℕ
  scan best nearest i [] = (best, nearest)
  scan best nearest i (d ∷ ds) =
      let p : Num × ℕ = if lt d best then (d, i) else (best, nearest) in scan p.0 p.1 (suc i) ds

  -- `Math.abs(slotXs[i] - cur)` for each slot
  pub distances : List Num → Num → List Num
  distances homes cur = map (λ x. abs (sub x cur)) homes

  pub nearest_slot : List Num → Num → ℕ
  unfolding scan distances
  nearest_slot homes cur = (scan infinity 0 0 (distances homes cur)).1

  -- `homes[startIdx].x`; without it the listener throws, and nothing changes.
  pub start_home : Drag → Option Num
  start_home d = elim d.start_idx [ none ↦ none | some i ↦ get_elem? d.homes i ]

  -- `move`, from the left edge at the start of the drag
  pub move_from : Option Num → Num → Drag → Drag
  unfolding reorder nearest_slot
  move_from none x d = d
  move_from (some x₀) x d = record d {
    live_order =
        reorder d.id d.order (nearest_slot d.homes (add x₀ (sub x d.start_x))) d.live_order;
  }

  pub move : Num → Drag → Drag
  unfolding start_home move_from
  move x d = move_from (start_home d) x d

  pub moves : List Num → Drag → Drag
  unfolding move
  moves [] d = d
  moves (x ∷ xs) d = moves xs (move x d)

  -- `up`: the order that `onReorder` is called with, if it is called
  pub drop : Drag → Option (List String)
  drop d = if join "|" d.live_order === join "|" d.order then none else some d.live_order
