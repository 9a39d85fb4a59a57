-- ===== src/React/Atoms/Tests.antt =====
-- The atoms at concrete properties.
use adivento.Base.{
  true, false, none, some, List, [], ◌∷◌, map, filter, ◌===◌, String, string_eq, ◌≡◌, refl, join,
  Option,
}
use adivento.Number.Exact.{exact}
use adivento.Markup.{Node, text, element, nil, no_props, cx, present}
use adivento.Markup.Queries.{texts_where, clicks, is_classed, text_of}
use adivento.React.Atoms.{button, mech_chip, mech_name, badge, segment, delta}
use adivento.React.Atoms.Segments.{segment-active, active_item}

abbrev class_of : Node String → Option String
class_of (text s) = none
class_of (element tag p ns) = p.class_name

button_class :
    class_of (button (some "yes") none true none none no_props nil)
    ≡ some "ds-btn ds-btn--yes ds-btn--block"
unfolding button cx present join
button_class = refl

mech_text : text_of {A = String} (mech_chip (λ s. "?") "fixed_odds") ≡ "FIXED"
unfolding mech_chip mech_name
mech_text = refl

badge_text : text_of {A = String} (badge none false nil) ≡ "open"
unfolding badge
badge_text = refl

delta_class : class_of (delta exact (λ n. "4") (some 4) "%") ≡ some "ds-delta ds-delta--up"
unfolding delta cx present join
delta_class = refl

abbrev options : List String
options = "all" ∷ "open" ∷ "closed" ∷ []

segment-active_example :
    (texts_where (is_classed active_item) (segment options "open" (some (λ (o : String). o)))
      ≡ filter (λ o. o === "open") options)
    × (clicks (segment options "open" (some (λ (o : String). o))) ≡ map (λ o. o) options)
segment-active_example = segment-active options "open" (λ o. o)
