-- ===== src/Canvas/Order.antt =====
-- docs/design/wireframes/v2/design-canvas.jsx: `dcFlatten`, the registries that `DesignCanvas`
-- builds from its children, `patchSection`, and the order that `DCSection` computes by itself.
-- The order of a section is memoised there on its inputs; it is computed each time here.
pub mod Laws
pub mod Edits
pub mod Labels
mod Tests
use adivento.Base.{
  join, String, Bool, true, false, not, Option, none, some, List, [], ◌∷◌, ◌++◌, filter, map,
  includes, ◌===◌, string_eq, if◌then◌else◌, truthy, or_else, coalesce,
}

-- A child of a React element that is a fragment, or any other value.
mutual
  pub data Child (A : Type 0) : Type 0 where
    leaf : A → Child A
    fragment : Children A → Child A

  pub data Children (A : Type 0) : Type 0 where
    nil : Children A
    cons : Child A → Children A → Children A

module _ {A : Type 0} where
  -- `dcFlatten(children)`
  mutual
    pub dc_flatten : Children A → List A
    dc_flatten nil = []
    dc_flatten (cons c cs) = flatten_child c ++ dc_flatten cs

    pub flatten_child : Child A → List A
    flatten_child (fragment cs) = dc_flatten cs
    flatten_child (leaf a) = a ∷ []

-- The props of an artboard that the canvas reads.
pub record Artboard : Type 0 where
  pub id : Option String
  pub label : Option String

-- A child of a section: an artboard, or something else (also `null`).
pub data Element : Type 0 where
  artboard : Artboard → Element
  other : Element

-- What is persisted of a section; `none` is `undefined`.
pub record Section : Type 0 where
  pub title : Option String
  pub order : Option (List String)
  pub labels : Option (List (String × String))
  pub hidden : Option (List String)
  pub src_key : Option String

-- `ab.props.id ?? ab.props.label`
pub artboard_id : Artboard → Option String
artboard_id a = coalesce a.id a.label

-- `if (aid) abs.push([aid, ab])`
pub push_id : Option String → Artboard → List (String × Artboard) → List (String × Artboard)
push_id none a rest = rest
push_id (some i) a rest = if truthy i then (i, a) ∷ rest else rest

-- `abs`
pub artboards_of : List Element → List (String × Artboard)
unfolding artboard_id push_id
artboards_of [] = []
artboards_of (artboard a ∷ es) = push_id (artboard_id a) a (artboards_of es)
artboards_of (other ∷ es) = artboards_of es

-- `abs.map(([k]) => k).join('\x1f')`
pub src_key_of : List String → String
unfolding join
src_key_of = join "\u{1f}"

-- `persisted.srcKey === srcKey ? (persisted.hidden || []) : []`
pub hidden_at : Option String → Option (List String) → String → List String
hidden_at none hidden key = []
hidden_at (some k) hidden key = if k === key then or_else hidden [] else []

pub hidden_of : Section → List String → List String
unfolding hidden_at src_key_of
hidden_of sec ids = hidden_at sec.src_key sec.hidden (src_key_of ids)

-- `srcIds`
pub src_ids : Section → List String → List String
unfolding hidden_of
src_ids sec ids = let hidden = hidden_of sec ids in filter (λ k. not (includes hidden k)) ids

-- `[...kept, ...srcIds.filter((k) => !kept.includes(k))]`
pub arrange : Option (List String) → List String → List String
arrange order src =
    let kept = filter (includes src) (or_else order []) in
    kept ++ filter (λ k. not (includes kept k)) src

-- `slotIds` of `sectionMeta[sid]`
pub slot_ids : Section → List Element → List String
unfolding artboards_of src_ids arrange
slot_ids sec children =
    let ids = map (λ p. p.0) (artboards_of children) in arrange sec.order (src_ids sec ids)

-- `DCSection`: `artboards.map((a) => a.props.id ?? a.props.label).filter(Boolean)`
pub artboards : List Element → List Artboard
artboards [] = []
artboards (artboard a ∷ es) = a ∷ artboards es
artboards (other ∷ es) = artboards es

pub filter_boolean : List (Option String) → List String
filter_boolean [] = []
filter_boolean (none ∷ ks) = filter_boolean ks
filter_boolean (some k ∷ ks) = let rest = filter_boolean ks in if truthy k then k ∷ rest else rest

pub all_ids : List Element → List String
unfolding artboards filter_boolean artboard_id
all_ids children = filter_boolean (map artboard_id (artboards children))

-- `order` of `DCSection`
unfoldable pub section_order : Section → List Element → List String
unfolding all_ids src_ids arrange
section_order sec children = arrange sec.order (src_ids sec (all_ids children))

-- `onReorder={(next) => ctx.patchSection(sid, { order: next })}`
pub on_reorder : List String → Section → Section
on_reorder next sec = record sec { order = some next }

-- `onDelete`, for the artboard with the id `k`
pub on_delete : List Element → String → Section → Section
unfolding all_ids hidden_of src_key_of
on_delete children k sec =
    let ids = all_ids children in
    record sec { hidden = some (hidden_of sec ids ++ k ∷ []); src_key = some (src_key_of ids) }

-- `{ ...x.labels, [k]: v }`: a key keeps its place, a new one comes last.
pub set_label : String → String → List (String × String) → List (String × String)
set_label k v [] = (k, v) ∷ []
set_label k v (p ∷ ps) = let rest = set_label k v ps in if p.0 === k then (k, v) ∷ ps else p ∷ rest

-- `onRename`
pub on_rename : String → String → Section → Section
unfolding set_label
on_rename k v sec = record sec { labels = some (set_label k v (or_else sec.labels [])) }

-- `(sec.labels || {})[k]`
pub find_label : String → List (String × String) → Option String
find_label k [] = none
find_label k (p ∷ ps) = let rest = find_label k ps in if p.0 === k then some p.1 else rest

-- `(sec.labels || {})[k] ?? byId[k].props.label`
pub label_of : String → Option String → Section → Option String
unfolding find_label
label_of k own sec = coalesce (find_label k (or_else sec.labels [])) own
