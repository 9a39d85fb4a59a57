-- ===== src/React/Atoms/Segments.antt =====
-- `Segment`: which button is active, and what the clicks do.
use adivento.Base.{
  Option, some, List, [], ◌∷◌, map, filter, ◌===◌, String, string_eq, ◌≡◌, refl, ap, Bool-cases,
  inl, inr, join,
}
use adivento.Markup.{nodes, cx, present}
use adivento.Markup.Queries.{texts_where, texts_where_all, clicks, clicks_all, is_classed}
use adivento.React.Atoms.{segment, segment_item}
use text.Mathlib.TextLemmas.{append-nil}

abbrev pub active_item : String
active_item = "ds-segment__item is-active"

module _ {A : Type 0} (value : String) (change : Option (String → A)) where
  items-active :
      (os : List String)
      → texts_where_all (is_classed active_item) (nodes (map (segment_item value change) os))
        ≡ filter (λ o. o === value) os
  unfolding segment_item cx present join
  items-active [] = refl
  items-active (o ∷ os) = elim (Bool-cases (o === value)) [
    | inl h ↦ rw (h, append-nil) (ap (λ r. o ∷ r) (items-active os))
    | inr h ↦ rw h (items-active os)
  ]

items-clicks :
    {A : Type 0} (value : String) (f : String → A) (os : List String)
    → clicks_all (nodes (map (segment_item value (some f)) os)) ≡ map f os
unfolding segment_item
items-clicks value f [] = refl
items-clicks value f (o ∷ os) = ap (λ r. f o ∷ r) (items-clicks value f os)

-- A segment with a handler shows as active the options that are equal to its value, and the clicks
-- on its buttons, in their order, call the handler with the options.
pub segment-active :
    {A : Type 0} (options : List String) (value : String) (f : String → A)
    → (texts_where (is_classed active_item) (segment options value (some f))
        ≡ filter (λ o. o === value) options)
      × (clicks (segment options value (some f)) ≡ map f options)
unfolding segment
segment-active options value f = (items-active value (some f) options, items-clicks value f options)
