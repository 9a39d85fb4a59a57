-- ===== src/Markup/Queries.antt =====
-- What is found in a tree of elements: its text, the text of the elements that pass a test, and the
-- actions of its clicks.
use Prim.Native.String.{◌++◌ as cat}
use adivento.Base.{
  Bool, true, false, Option, none, some, List, [], ◌∷◌, ◌++◌, if◌then◌else◌, ◌===◌, String,
  string_eq,
}
use adivento.Markup.{Props, Node, text, element, Nodes, nil, cons}

module _ {A : Type 0} where
  abbrev mutual
    pub text_of : Node A → String
    text_of (text s) = s
    text_of (element tag p ns) = text_of_all ns

    pub text_of_all : Nodes A → String
    text_of_all nil = ""
    text_of_all (cons n ns) = cat (text_of n) (text_of_all ns)

  -- The texts of the elements whose properties pass a test, in the order of the tree.
  abbrev mutual
    pub texts_where : (Props A → Bool) → Node A → List String
    texts_where ok (text s) = []
    texts_where ok (element tag p ns) =
        let inside = texts_where_all ok ns in if ok p then text_of_all ns ∷ inside else inside

    pub texts_where_all : (Props A → Bool) → Nodes A → List String
    texts_where_all ok nil = []
    texts_where_all ok (cons n ns) = texts_where ok n ++ texts_where_all ok ns

  abbrev action : Option A → List A
  action none = []
  action (some a) = a ∷ []

  -- What the clicks on the elements do, in the order of the tree.
  abbrev mutual
    pub clicks : Node A → List A
    clicks (text s) = []
    clicks (element tag p ns) = action p.on_click ++ clicks_all ns

    pub clicks_all : Nodes A → List A
    clicks_all nil = []
    clicks_all (cons n ns) = clicks n ++ clicks_all ns

  -- A class name as a whole.
  abbrev pub is_classed : String → Props A → Bool
  is_classed c p = elim p.class_name [ none ↦ false | some d ↦ d === c ]

-- A click handler: what it does, and whether it stops the propagation of the click.
pub record Handler (B : Type 0) : Type 0 where
  pub stops : Bool
  pub does : Option B

abbrev pub runs : {B : Type 0} → B → Option (Handler B)
runs b = some (record { stops = false; does = some b })

abbrev pub stopped : {B : Type 0} → B → Option (Handler B)
stopped b = some (record { stops = true; does = some b })

-- `(e) => e.stopPropagation()`
abbrev pub stop : {B : Type 0} → Option (Handler B)
stop = some (record { stops = true; does = none })

module _ {B : Type 0} where
  -- What a click does that passes these handlers, the innermost first.
  abbrev pub bubble : List (Handler B) → List B
  bubble [] = []
  bubble (h ∷ hs) = let rest = bubble hs in action h.does ++ (if h.stops then [] else rest)

  -- What a click on each element does, below elements with these handlers.
  abbrev mutual
    pub outcomes : List (Handler B) → Node (Handler B) → List (List B)
    outcomes hs (text s) = []
    outcomes hs (element tag p ns) =
        let here = action p.on_click ++ hs in bubble here ∷ outcomes_all here ns

    pub outcomes_all : List (Handler B) → Nodes (Handler B) → List (List B)
    outcomes_all hs nil = []
    outcomes_all hs (cons n ns) = outcomes hs n ++ outcomes_all hs ns
