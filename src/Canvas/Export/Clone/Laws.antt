-- ===== src/Canvas/Export/Clone/Laws.antt =====
-- The copy of an artboard against the artboard.
use Prim.Native.String.{◌++◌ as cat}
use adivento.Base.{
  false, Option, none, some, List, [], ◌∷◌, if◌then◌else◌, ◌===◌, String, string_eq, ◌≡◌, ◌≢◌, refl,
  ap₂, Bool-cases, inl, inr, ===_apart, ===_iff, ===_refl, arith,
}
use adivento.Canvas.Export.Clone.{
  Pair, Element, Node, text, comment, element, Nodes, nil, cons, get_attribute, set_attribute,
  style_text, still, styled, picture_of, drawn, clone_element, clone_styled, clone_all,
}

abbrev pub script : String
script = "SCRIPT"

-- No comment and no script is left, and every element carries a style.
abbrev mutual
  pub Clean : Node → Type 0
  Clean (text s) = Unit
  Clean (comment s) = ⊥
  Clean (element e cs) =
      (e.tag ≢ script) × (get_attribute "style" e.attributes ≢ none) × CleanAll cs

  pub CleanAll : Nodes → Type 0
  CleanAll nil = Unit
  CleanAll (cons n ns) = Clean n × CleanAll ns

-- The text that a node holds.
abbrev mutual
  pub content : Node → String
  content (text s) = s
  content (comment s) = ""
  content (element e cs) = content_all cs

  pub content_all : Nodes → String
  content_all nil = ""
  content_all (cons n ns) = cat (content n) (content_all ns)

-- The text of a node outside its scripts, and outside the canvases that a picture stands for.
abbrev mutual
  pub shown : Node → String
  shown (text s) = s
  shown (comment s) = ""
  shown (element e cs) =
      let inside = shown_all cs in
      if e.tag === script then "" else elim (drawn e) [ none ↦ inside | some url ↦ "" ]

  pub shown_all : Nodes → String
  shown_all nil = ""
  shown_all (cons n ns) = cat (shown n) (shown_all ns)

module _ (k : String) where
  pub get-set_attribute :
      (w : String) (xs : List Pair) → get_attribute k (set_attribute k w xs) ≡ some w
  unfolding get_attribute set_attribute
  get-set_attribute w [] = ground (arith, ===_refl k)
  get-set_attribute w ((l, v) ∷ rest) = ground (arith, get-set_attribute w rest)

  pub get-set_attribute_other :
      (l w : String) (xs : List Pair)
      → (l === k) ≡ false
      → get_attribute k (set_attribute l w xs) ≡ get_attribute k xs
  unfolding get_attribute set_attribute
  get-set_attribute_other l w [] h = ground arith
  get-set_attribute_other l w ((m, v) ∷ rest) h =
      ground (arith, get-set_attribute_other l w rest h, ===_iff m l, ===_iff m k, ===_iff l k)

styled-style : (e : Element) → get_attribute "style" (styled e).attributes ≢ none
unfolding styled
styled-style e h = cc (get-set_attribute "style" (cat (style_text e.computed) still) e.attributes)

clone_element-Clean :
    (e : Element) (copies : Nodes) (o : Option String)
    → e.tag ≢ script
    → CleanAll copies
    → Clean (clone_element e copies o)
unfolding clone_element picture_of get_attribute
clone_element-Clean e copies none h k = (h, styled-style e, k)
clone_element-Clean e copies (some url) h k =
    (===_apart {A = String} "IMG" script refl, λ x. cc x, tt)

clone_element-content :
    (e : Element) (cs copies : Nodes) (o : Option String)
    → content_all copies ≡ shown_all cs
    → content (clone_element e copies o) ≡ (elim o [ none ↦ shown_all cs | some url ↦ "" ])
unfolding clone_element
clone_element-content e cs copies none h = h
clone_element-content e cs copies (some url) h = refl

mutual
  unfolding clone_styled

  pub clone_styled-Clean : (n : Node) → Clean (clone_styled n)
  clone_styled-Clean (text s) = tt
  clone_styled-Clean (comment s) = tt
  clone_styled-Clean (element e cs) = elim (Bool-cases (e.tag === script)) [
    | inl h ↦ rw h tt
    | inr h ↦ rw h (
        clone_element-Clean e (clone_all cs) (drawn e) (===_apart e.tag script h)
          (clone_all-Clean cs))
  ]

  clone_all-Clean : (ns : Nodes) → CleanAll (clone_all ns)
  clone_all-Clean nil = tt
  clone_all-Clean (cons n ns) = (clone_styled-Clean n, clone_all-Clean ns)

mutual
  unfolding clone_styled

  pub content-clone_styled : (n : Node) → content (clone_styled n) ≡ shown n
  content-clone_styled (text s) = refl
  content-clone_styled (comment s) = refl
  content-clone_styled (element e cs) = elim (Bool-cases (e.tag === script)) [
    | inl h ↦ rw h refl
    | inr h ↦ rw h (clone_element-content e cs (clone_all cs) (drawn e) (content-clone_all cs))
  ]

  content-clone_all : (ns : Nodes) → content_all (clone_all ns) ≡ shown_all ns
  content-clone_all nil = refl
  content-clone_all (cons n ns) = ap₂ cat (content-clone_styled n) (content-clone_all ns)
