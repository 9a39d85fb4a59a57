-- ===== src/React/Atoms.antt =====
-- docs/design/system/react/atoms.jsx: the small components. A property that the caller leaves out is
-- `none` or `false`; `rest` are the properties that are passed on.
pub mod Segments
mod Tests
use Prim.Native.String.{◌++◌ as cat}
use adivento.Base.{
  ℕ, Bool, true, false, Option, none, some, List, [], ◌∷◌, ◌++◌, map, if◌then◌else◌, ◌===◌, String,
  string_eq, ◌||◌, or_else, truthy,
}
use adivento.Number.{Number}
use adivento.Markup.{
  Value, str, Props, Node, text, element, Nodes, nil, cons, nodes, when, when_text, no_props,
  classed, one, said, append, cx, name_if, prefixed,
}

-- The table `MECH`.
unfoldable pub mech_name : String → Option String
mech_name m =
    if m === "fixed" || m === "fixed_odds"
    then some "FIXED"
    else if m === "clob"
    then some "CLOB"
    else if m === "lmsr"
    then some "LMSR"
    else (if m === "parimutuel" || m === "pari" then some "PARI" else none)

module _ {A : Type 0} where
  -- `{...rest}` on an element with a class.
  abbrev rest_props : String → Props A → Props A
  rest_props cls rest = record rest { class_name = some cls }

  unfoldable pub button :
      Option String
      → Option String
      → Bool
      → Option String
      → Option String
      → Props A
      → Nodes A
      → Node A
  unfolding cx
  button variant size block href class_name rest children =
      let cls = cx (
        some "ds-btn"
        ∷ prefixed "ds-btn--" variant
        ∷ prefixed "ds-btn--" size
        ∷ name_if block "ds-btn--block"
        ∷ class_name
        ∷ []) in
      let plain = element "button" (rest_props cls rest) children in
      elim href [
        | none ↦ plain
        | some h ↦
            if truthy h
            then element "a"
                (record rest {
                  class_name = some cls;
                  attributes = ("href", str h) ∷ rest.attributes;
                })
                children
            else plain
      ]

  unfoldable pub chip : Bool → Bool → Bool → Bool → Option String → Props A → Nodes A → Node A
  unfolding cx
  chip active accent solid mech class_name rest children =
      let cls = cx (
        some "ds-chip"
        ∷ name_if active "is-active"
        ∷ name_if accent "ds-chip--accent"
        ∷ name_if solid "ds-chip--solid"
        ∷ class_name
        ∷ []) in
      element "span"
        (record rest {
          class_name = some cls;
          attributes =
              if mech then ("data-mech", str "true") ∷ rest.attributes else rest.attributes;
        })
        children

  -- `upper` is `toUpperCase`.
  unfoldable pub mech_chip : (String → String) → String → Node A
  unfolding chip mech_name
  mech_chip upper m =
      chip false true false true none no_props (said (or_else (mech_name m) (upper m)))

  -- `children || status`
  abbrev or_status : Nodes A → String → Nodes A
  or_status nil s = said s
  or_status (cons n ns) s = cons n ns

  unfoldable pub badge : Option String → Bool → Nodes A → Node A
  unfolding cx
  badge status live children =
      let s = or_else status "open" in
      let cls =
        cx (some "ds-badge" ∷ some (cat "ds-badge--" s) ∷ name_if live "ds-badge--live" ∷ []) in
      classed "span" cls (if live then said "Live" else or_status children s)

  unfoldable pub card : Bool → Bool → Bool → Option String → Props A → Nodes A → Node A
  unfolding cx
  card flush quiet pad_sm class_name rest children =
      element "div"
        (rest_props
          (cx (
            some "ds-card"
            ∷ name_if flush "ds-card--flush"
            ∷ name_if quiet "ds-card--quiet"
            ∷ name_if pad_sm "ds-card--pad-sm"
            ∷ class_name
            ∷ []))
          rest)
        children

  abbrev input_of : List (Option String) → Props A → Node A
  unfolding cx
  input_of names rest = element "input" (rest_props (cx names) rest) nil

  unfoldable pub field :
      Option String → Option String → Option String → Option String → Props A → Node A
  unfolding input_of
  field label suffix help class_name rest =
      let simple = input_of (some "ds-input" ∷ class_name ∷ []) rest in
      let group = λ (s : String). classed "div" "ds-input-group" (
        cons (input_of (some "ds-input" ∷ some "ds-num" ∷ class_name ∷ []) rest)
          (one (classed "span" "ds-input-group__suffix" (said s)))) in
      classed "div" "ds-field" (
        append (when_text label (λ s. classed "label" "ds-label" (said s))) (
          cons (elim suffix [ none ↦ simple | some s ↦ if truthy s then group s else simple ])
            (when_text help (λ s. classed "div" "ds-help" (said s)))))

  -- One button of `Segment`; `on_change` is what a call of `onChange` does, if it is given.
  unfoldable pub segment_item : String → Option (String → A) → String → Node A
  unfolding cx
  segment_item value on_change o =
      element "button"
        (record no_props {
          class_name = some (cx (some "ds-segment__item" ∷ name_if (o === value) "is-active" ∷ []));
          on_click = elim on_change [ none ↦ none | some f ↦ some (f o) ];
        })
        (said o)

  unfoldable pub segment : List String → String → Option (String → A) → Node A
  unfolding segment_item
  segment options value on_change =
      classed "div" "ds-segment" (nodes (map (segment_item value on_change) options))

  unfoldable pub avatar : Option String → Props A → Node A
  unfolding cx
  avatar size rest =
      element "span" (rest_props (cx (some "ds-avatar" ∷ prefixed "ds-avatar--" size ∷ [])) rest)
        nil

  module _ (N : Number) (show : N.Num → String) where
    -- `Delta`; `show` is the text of a number.
    unfoldable pub delta : N.Num → String → Node A
    unfolding cx
    delta value unit =
        let up = N.le (N.of 0) value in
        classed "span"
          (cx (some "ds-delta" ∷ some (if up then "ds-delta--up" else "ds-delta--down") ∷ []))
          (cons (text (show (N.abs value))) (said unit))
