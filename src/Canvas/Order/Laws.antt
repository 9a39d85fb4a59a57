-- ===== src/Canvas/Order/Laws.antt =====
-- The list of a section, and what changes it.
use adivento.Base.{
  ◌≤◌, String, not, Option, none, some, List, [], ◌∷◌, ◌++◌, filter, map, includes, count,
  string_eq, if◌then◌else◌, or_else, ◌≡◌, refl, ap, sym, ◌∙◌, arith,
}
use mathlib.Core.List.{append_assoc}
use adivento.Base.Counts.{count-append, count-filter, includes-count, includes-filter}
use adivento.Canvas.Order.{
  Children, fragment, nil, cons, dc_flatten, flatten_child, Artboard, Element, artboard, other,
  Section, artboard_id, push_id, artboards_of, src_key_of, hidden_of, src_ids, arrange, slot_ids,
  artboards, filter_boolean, all_ids, section_order,
}

module _ {A : Type 0} where
  -- The children `cs` before the children `ds`.
  abbrev before : Children A → Children A → Children A
  before nil ds = ds
  before (cons c cs) ds = cons c (before cs ds)

  pub dc_flatten-before :
      (cs ds : Children A) → dc_flatten (before cs ds) ≡ dc_flatten cs ++ dc_flatten ds
  unfolding dc_flatten
  dc_flatten-before nil ds = refl
  dc_flatten-before (cons c cs) ds =
      rw (dc_flatten-before cs ds)
        (sym (append_assoc (flatten_child c) (dc_flatten cs) (dc_flatten ds)))

  -- Children that are grouped into a fragment, wherever it stands, flatten as they do without it.
  pub dc_flatten-fragment :
      (cs ds es : Children A)
      → dc_flatten (before cs (cons (fragment ds) es)) ≡ dc_flatten (before cs (before ds es))
  unfolding dc_flatten flatten_child
  dc_flatten-fragment cs ds es =
      rw (dc_flatten-before cs (cons (fragment ds) es))
        (rw (dc_flatten-before cs (before ds es)) (rw (dc_flatten-before ds es) refl))

abbrev ids_of : List Element → List String
ids_of children = map (λ p. p.0) (artboards_of children)

ids_of-push_id :
    (i : Option String) (a : Artboard) (es : List Element)
    → map (λ p. p.0) (push_id i a (artboards_of es)) ≡ filter_boolean (i ∷ []) ++ ids_of es
unfolding push_id filter_boolean
ids_of-push_id none a es = refl
ids_of-push_id (some i) a es = ground arith

filter_boolean-cons :
    (i : Option String) (ks : List (Option String))
    → filter_boolean (i ∷ ks) ≡ filter_boolean (i ∷ []) ++ filter_boolean ks
unfolding filter_boolean
filter_boolean-cons none ks = refl
filter_boolean-cons (some i) ks = ground arith

pub all_ids-ids_of : (es : List Element) → all_ids es ≡ ids_of es
unfolding all_ids artboards artboards_of
all_ids-ids_of [] = refl
all_ids-ids_of (artboard a ∷ es) =
    filter_boolean-cons (artboard_id a) (map artboard_id (artboards es))
    ∙ ap (λ ks. filter_boolean (artboard_id a ∷ []) ++ ks) (all_ids-ids_of es)
    ∙ sym (ids_of-push_id (artboard_id a) a es)
all_ids-ids_of (other ∷ es) = all_ids-ids_of es

-- The canvas and the section compute the same key of the source and the same order of artboards.
pub section_order-slot_ids :
    (sec : Section) (children : List Element)
    → (src_key_of (all_ids children) ≡ src_key_of (map (λ p. p.0) (artboards_of children)))
      × (section_order sec children ≡ slot_ids sec children)
unfolding section_order slot_ids
section_order-slot_ids sec children = (
  ap src_key_of (all_ids-ids_of children),
  ap (λ ids. arrange sec.order (src_ids sec ids)) (all_ids-ids_of children),
)

count-arrange :
    (k : String) (order : Option (List String)) (src : List String)
    → count k (or_else order []) ≤ 1
    → count k src ≤ 1
    → count k (arrange order src) ≡ count k src
unfolding arrange
count-arrange k order src ho hs =
    let o = or_else order [] in
    let kept = filter (includes src) o in
    rw (count-append k kept (filter (λ x. not (includes kept x)) src)) (
      rw (count-filter (λ x. not (includes kept x)) k src) (
        rw (includes-filter (includes src) k o) (
          rw (count-filter (includes src) k o)
            (ground (arith, includes-count k src, includes-count k o)))))

count-src_ids :
    (k : String) (sec : Section) (ids : List String)
    → count k (src_ids sec ids) ≡ (if includes (hidden_of sec ids) k then 0 else count k ids)
unfolding src_ids
count-src_ids k sec ids =
    rw (count-filter (λ x. not (includes (hidden_of sec ids) x)) k ids) (ground arith)

pub slot_ids-arrange :
    (sec : Section) (children : List Element)
    → slot_ids sec children ≡ arrange sec.order (src_ids sec (all_ids children))
unfolding section_order
slot_ids-arrange sec children = sym (section_order-slot_ids sec children).1

-- If no id stands twice in the children or in the persisted order, then the artboards that are
-- shown are those of the source that are not hidden, each of them once.
pub count-slot_ids :
    (k : String) (sec : Section) (children : List Element)
    → count k (or_else sec.order []) ≤ 1
    → count k (all_ids children) ≤ 1
    → count k (slot_ids sec children)
      ≡ (if includes (hidden_of sec (all_ids children)) k then 0 else count k (all_ids children))
count-slot_ids k sec children ho hs =
    let ids = all_ids children in
    rw (slot_ids-arrange sec children) (
      count-arrange k sec.order (src_ids sec ids) ho (ground (arith, count-src_ids k sec ids))
      ∙ count-src_ids k sec ids)
