-- ===== src/Canvas/View/Overlay/Clicks.antt =====
-- The clicks of the focus overlay: what a click on each of its elements does.
use adivento.Base.{
  Bool, true, false, Option, none, some, List, [], ◌∷◌, ◌++◌, map, String, if◌then◌else◌, truthy,
  string_eq,
}
use adivento.Number.{Number}
use adivento.Markup.Queries.{Handler}
use adivento.Canvas.Focus.{Overlay, Step}
use adivento.Canvas.View.Overlay.{Action, close, toggle_dropdown, pick, step, peer}

-- What the clicks on the elements do, in the order of the tree: a list of actions for each element.
abbrev pub Clicks : Type 0
Clicks = List (List Action)

-- The button of the dropdown: itself, its two spans, its drawing with the path, and the subtitle.
abbrev pub button_clicks : Option String → Clicks
button_clicks subtitle =
    let toggles : Clicks =
      (toggle_dropdown ∷ [])
      ∷ (toggle_dropdown ∷ [])
      ∷ (toggle_dropdown ∷ [])
      ∷ (toggle_dropdown ∷ [])
      ∷ (toggle_dropdown ∷ [])
      ∷ [] in
    elim subtitle [
      | none ↦ toggles
      | some s ↦ if truthy s then toggles ++ (toggle_dropdown ∷ []) ∷ [] else toggles
    ]

-- The open dropdown: the panel, and a button for each section.
abbrev pub section_clicks : List String → Bool → Clicks
section_clicks sids true = [] ∷ map (λ sid. pick sid ∷ []) sids
section_clicks sids false = []

-- The bar and its left part, the button and the dropdown, the space, and the button with the cross.
abbrev pub bar_clicks : List String → Option String → Bool → Clicks
bar_clicks sids subtitle dd_open =
    [] ∷ [] ∷ (button_clicks subtitle ++ section_clicks sids dd_open) ++ [] ∷ (close ∷ []) ∷ []

-- The margins around the card close; the card, its sheet, the placeholder, the label and the place
-- among the peers do nothing.
abbrev pub stage_clicks : Clicks
stage_clicks = (close ∷ []) ∷ [] ∷ [] ∷ [] ∷ [] ∷ [] ∷ []

-- An arrow, its drawing and the path
abbrev pub arrow_clicks : Step → Clicks
arrow_clicks d = (step d ∷ []) ∷ (step d ∷ []) ∷ (step d ∷ []) ∷ []

-- The row of dots, and each dot
abbrev pub dots_clicks : List String → Clicks
dots_clicks peers = [] ∷ map (λ p. peer p ∷ []) peers

-- The handlers above an element of a part that stops the propagation.
abbrev inside : List (Handler Action)
inside = record { stops = true; does = none } ∷ record { stops = false; does = some close } ∷ []

abbrev at_root : List (Handler Action)
at_root = record { stops = false; does = some close } ∷ []
