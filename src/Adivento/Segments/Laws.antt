-- ===== src/Adivento/Segments/Laws.antt =====
-- Clicks on the items of a group and its panels.
use Prim.Native.String.{◌++◌}
use adivento.Base.{
  ℕ, zero, suc, String, Bool, true, false, not, Option, none, some, List, [], ◌∷◌, map, get_elem?,
  ◌===◌, nat_eq, string_eq, if◌then◌else◌, truthy, coalesce, ◌≡◌, refl, arith, ◌∙◌, ap, Bool-cases,
  Option-cases, ◌⊎◌, inl, inr,
}
use adivento.Adivento.Segments.{
  Item, Panel, Page, activate, deactivate, in_scope, show_panel, show_each, show_panels, select,
  click, click_each,
}

get_elem?-show_each :
    (scope : ℕ → Bool) (sel : String) (j : ℕ) (ps : List Panel) (p : Panel)
    → get_elem? ps j ≡ some p
    → get_elem? (show_each scope sel ps) j ≡ some (show_panel scope sel p)
unfolding show_each
get_elem?-show_each scope sel j [] p h = cc
get_elem?-show_each scope sel zero (q ∷ ps) p h = ground arith
get_elem?-show_each scope sel (suc j) (q ∷ ps) p h = get_elem?-show_each scope sel j ps p h

-- The elements that a group shows and hides: those below what its `data-ds-tabs` finds, and all
-- elements of the document if it has none, an empty one, or one that finds nothing.
abbrev pub Whole : Page → Type 0
Whole page =
    (page.tabs ≡ none)
    ⊎ ((s : String) × (page.tabs ≡ some s) × ((truthy s ≡ false) ⊎ (page.root s ≡ none)))

abbrev pub Scoped : Page → (ℕ → Bool) → Type 0
Scoped page scope =
    ((s : String) × (page.tabs ≡ some s) × (truthy s ≡ true) × (page.root s ≡ some scope))
    ⊎ (Whole page × ((e : ℕ) → scope e ≡ true))

in_scope-Scoped :
    (page : Page) (scope : ℕ → Bool) (e : ℕ) → Scoped page scope → in_scope page e ≡ scope e
unfolding in_scope
in_scope-Scoped page scope e (inl (s, h, t, r)) = rw (h, t, r)
in_scope-Scoped page scope e (inr (inl h, all)) = rw (h, all e)
in_scope-Scoped page scope e (inr (inr (s, h, inl t), all)) = rw (h, t, all e)
in_scope-Scoped page scope e (inr (inr (s, h, inr r), all)) = elim (Bool-cases (truthy s)) [
  | inl t ↦ rw (h, t, r, all e)
  | inr t ↦ rw (h, t, all e)
]

-- The target of the last click that meets an item with a target that is not empty.
abbrev pub chosen : Option (Option String) → Option String
chosen none = none
chosen (some none) = none
chosen (some (some s)) = if truthy s then some s else none

abbrev pub last_target : List ℕ → List (Option String) → Option String
last_target [] ts = none
last_target (k ∷ ks) ts = coalesce (last_target ks ts) (chosen (get_elem? ts k))

-- The panel when this target decides.
abbrev pub shown : (ℕ → Bool) → Option String → Panel → Panel
shown scope none p = p
shown scope (some sel) p =
    if scope p.element then record p { hidden = not (("#" ++ p.name) === sel) } else p

shown-coalesce :
    (scope : ℕ → Bool) (later first : Option String) (p : Panel)
    → shown scope later (shown scope first p) ≡ shown scope (coalesce later first) p
shown-coalesce scope none first p = refl
shown-coalesce scope (some sel) none p = refl
shown-coalesce scope (some sel) (some old) p = ground arith

abbrev targets : List Item → List (Option String)
targets xs = map (λ x. x.target) xs

targets-deactivate : (xs : List Item) → targets (deactivate xs) ≡ targets xs
unfolding deactivate
targets-deactivate [] = refl
targets-deactivate (x ∷ xs) = ap (λ ts. x.target ∷ ts) (targets-deactivate xs)

targets-activate : (k : ℕ) (xs : List Item) → targets (activate k xs) ≡ targets xs
unfolding activate
targets-activate k [] = refl
targets-activate zero (x ∷ xs) = refl
targets-activate (suc k) (x ∷ xs) = ap (λ ts. x.target ∷ ts) (targets-activate k xs)

targets-click : (k : ℕ) (page : Page) → targets (click k page).0.items ≡ targets page.items
unfolding click select
targets-click k page = elim (Option-cases (get_elem? page.items k)) [
  | inl e ↦ rw e
  | inr (item, e) ↦
      rw e (targets-activate k (deactivate page.items) ∙ targets-deactivate page.items)
]

Scoped-click :
    (k : ℕ) (page : Page) (scope : ℕ → Bool) → Scoped page scope → Scoped (click k page).0 scope
unfolding click select
Scoped-click k page scope h = elim (Option-cases (get_elem? page.items k)) [
  | inl e ↦ rw e h
  | inr (item, e) ↦ rw e h
]

abbrev target_of : Option Item → Option (Option String)
target_of none = none
target_of (some x) = some x.target

get_elem?-targets : (k : ℕ) (xs : List Item) → get_elem? (targets xs) k ≡ target_of (get_elem? xs k)
get_elem?-targets k [] = refl
get_elem?-targets zero (x ∷ xs) = refl
get_elem?-targets (suc k) (x ∷ xs) = get_elem?-targets k xs

show_panels-shown :
    (page : Page) (scope : ℕ → Bool) (o : Option String) (j : ℕ) (p : Panel)
    → Scoped page scope
    → get_elem? page.panels j ≡ some p
    → get_elem? (show_panels page o) j ≡ some (shown scope (chosen (some o)) p)
unfolding show_panels show_panel
show_panels-shown page scope none j p h hj = hj
show_panels-shown page scope (some sel) j p h hj = elim (Bool-cases (truthy sel)) [
  | inl t ↦ rw (
    t,
    get_elem?-show_each (in_scope page) sel j page.panels p hj,
    in_scope-Scoped page scope p.element h,
  )
  | inr t ↦ rw t hj
]

click-shown :
    (k j : ℕ) (page : Page) (scope : ℕ → Bool) (p : Panel)
    → Scoped page scope
    → get_elem? page.panels j ≡ some p
    → get_elem? (click k page).0.panels j
      ≡ some (shown scope (chosen (get_elem? (targets page.items) k)) p)
unfolding click select
click-shown k j page scope p h hj = elim (Option-cases (get_elem? page.items k)) [
  | inl e ↦ rw (get_elem?-targets k page.items, e) hj
  | inr (item, e) ↦
      rw (get_elem?-targets k page.items, e) (show_panels-shown page scope item.target j p h hj)
]

-- After any clicks, each panel in the scope of the group is shown exactly if the last of the clicks
-- that meets an item with a target names it, and a panel outside the scope is as it was; so is every
-- panel if no click meets such an item. The scope is what the group's `data-ds-tabs` finds, and the
-- whole document otherwise.
pub click_each-panels :
    (ks : List ℕ) (page : Page) (scope : ℕ → Bool) (j : ℕ) (p : Panel)
    → Scoped page scope
    → get_elem? page.panels j ≡ some p
    → get_elem? (click_each ks page).panels j
      ≡ some (shown scope (last_target ks (map (λ x. x.target) page.items)) p)
unfolding click_each
click_each-panels [] page scope j p h hj = hj
click_each-panels (k ∷ ks) page scope j p h hj =
    let first = chosen (get_elem? (targets page.items) k) in
    click_each-panels ks (click k page).0 scope j (shown scope first p)
      (Scoped-click k page scope h) (click-shown k j page scope p h hj)
    ∙ ap some (
        ap (λ ts. shown scope (last_target ks ts) (shown scope first p)) (targets-click k page)
        ∙ shown-coalesce scope (last_target ks (targets page.items)) first p)
