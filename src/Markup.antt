-- ===== src/Markup.antt =====
-- The elements that the React components return, as trees, and what a reader or a click finds in
-- them. React and the browser draw them; the components are functions into these trees.
pub mod Queries
use Prim.Native.String.{◌++◌ as cat}
use adivento.Base.{
  ℕ, Bool, true, false, Option, none, some, List, [], ◌∷◌, map, filter, if◌then◌else◌, ◌===◌,
  String, string_eq, join, truthy,
}

-- A value of a property: a string, or a number by its text.
pub data Value : Type 0 where
  str num : String → Value

abbrev pub value_text : Value → String
value_text (str s) = s
value_text (num s) = s

-- A style object: its keys in the order of insertion.
abbrev pub Style : Type 0
Style = List (String × Value)

-- The properties of an element; `on_click` and `on_change` are what its handlers do, where an action
-- of the type `A` stands for a call of a function.
pub record Props (A : Type 0) : Type 0 where
  pub class_name : Option String
  pub style : Style
  pub attributes : List (String × Value)
  pub on_click : Option A
  pub on_change : Option (String → A)

mutual
  pub data Node (A : Type 0) : Type 0 where
    text : String → Node A
    element : String → Props A → Nodes A → Node A

  pub data Nodes (A : Type 0) : Type 0 where
    nil : Nodes A
    cons : Node A → Nodes A → Nodes A

-- An array of elements in the place of children.
abbrev pub nodes : {A : Type 0} → List (Node A) → Nodes A
nodes [] = nil
nodes (x ∷ xs) = cons x (nodes xs)

abbrev pub append : {A : Type 0} → Nodes A → Nodes A → Nodes A
append nil ms = ms
append (cons n ns) ms = cons n (append ns ms)

-- `{xs.map(…)}` beside other children
abbrev pub concat : {A : Type 0} → List (Nodes A) → Nodes A
concat [] = nil
concat (ns ∷ nss) = append ns (concat nss)

-- `{cond && <…/>}`
abbrev pub when : {A : Type 0} → Bool → Node A → Nodes A
when true n = cons n nil
when false n = nil

-- `{o && <…/>}` for an optional string: an empty one draws nothing.
abbrev pub when_text : {A : Type 0} → Option String → (String → Node A) → Nodes A
when_text none f = nil
when_text (some s) f = when (truthy s) (f s)

abbrev pub no_props : {A : Type 0} → Props A
no_props = record {
  class_name = none;
  style = [];
  attributes = [];
  on_click = none;
  on_change = none;
}

-- An element with a class, with a style, and with both.
abbrev pub classed : {A : Type 0} → String → String → Nodes A → Node A
classed tag c ns = element tag (record no_props { class_name = some c }) ns

abbrev pub drawn : {A : Type 0} → String → Style → Nodes A → Node A
drawn tag st ns = element tag (record no_props { style = st }) ns

abbrev pub both : {A : Type 0} → String → String → Style → Nodes A → Node A
both tag c st ns = element tag (record no_props { class_name = some c; style = st }) ns

abbrev pub one : {A : Type 0} → Node A → Nodes A
one n = cons n nil

abbrev pub said : {A : Type 0} → String → Nodes A
said s = cons (text s) nil

-- `{ ...style, [k]: v }`
unfoldable pub put : String → Value → Style → Style
put k v [] = (k, v) ∷ []
put k v ((l, w) ∷ rest) = let r = put k v rest in if l === k then (l, v) ∷ rest else (l, w) ∷ r

-- `{ …base, ...style }`
unfoldable pub spread : Style → Style → Style
unfolding put
spread base [] = base
spread base ((k, v) ∷ rest) = spread (put k v base) rest

-- `xs.filter(Boolean).join(' ')`, where `none` is a falsy value
unfoldable pub present : List (Option String) → List String
present [] = []
present (none ∷ xs) = present xs
present (some s ∷ xs) = let r = present xs in if truthy s then s ∷ r else r

unfoldable pub cx : List (Option String) → String
unfolding join present
cx xs = join " " (present xs)

-- `cond && name`
abbrev pub name_if : Bool → String → Option String
name_if true name = some name
name_if false name = none

-- `` o && `${prefix}${o}` ``
abbrev pub prefixed : String → Option String → Option String
prefixed prefix none = none
prefixed prefix (some s) = if truthy s then some (cat prefix s) else none
