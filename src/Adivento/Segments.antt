-- ===== src/Adivento/Segments.antt =====
-- `Adivento.segments` of app/assets/javascripts/adivento.js: segmented controls and tabs with their
-- panels. A click is given by the place of the item in its group.
pub mod Laws
mod Tests
use Prim.Native.String.{◌++◌}
use adivento.Base.{
  ℕ, zero, suc, String, Bool, true, false, not, Option, none, some, List, [], ◌∷◌, map, get_elem?,
  ◌===◌, string_eq, if◌then◌else◌, truthy,
}

-- An item of the group: its class `is-active`, its `data-target` and its trimmed text.
pub record Item : Type 0 where
  pub active : Bool
  pub target : Option String
  pub text : String

-- An element with `data-panel`; `element` is its identity.
pub record Panel : Type 0 where
  pub element : ℕ
  pub name : String
  pub hidden : Bool

-- `tabs` is the group's `data-ds-tabs`. `root s` is what `document.querySelector(s)` finds, given by
-- the panels that stand below it.
pub record Page : Type 0 where
  pub items : List Item
  pub tabs : Option String
  pub root : String → Option (ℕ → Bool)
  pub panels : List Panel

-- The detail of `ds:segment`.
pub record Segment : Type 0 where
  pub value : String
  pub target : Option String

pub activate : ℕ → List Item → List Item
activate k [] = []
activate zero (x ∷ xs) = record x { active = true } ∷ xs
activate (suc k) (x ∷ xs) = x ∷ activate k xs

pub deactivate : List Item → List Item
deactivate [] = []
deactivate (x ∷ xs) = record x { active = false } ∷ deactivate xs

-- `panel ? document.querySelector(panel) || document : document`
pub in_scope : Page → ℕ → Bool
in_scope page e = elim page.tabs [
  | none ↦ true
  | some s ↦ if truthy s then elim (page.root s) [ none ↦ true | some below ↦ below e ] else true
]

pub show_panel : (ℕ → Bool) → String → Panel → Panel
show_panel scope sel p =
    if scope p.element then record p { hidden = not (("#" ++ p.name) === sel) } else p

pub show_each : (ℕ → Bool) → String → List Panel → List Panel
unfolding show_panel
show_each scope sel [] = []
show_each scope sel (p ∷ ps) = show_panel scope sel p ∷ show_each scope sel ps

-- `if (sel) { … }`
pub show_panels : Page → Option String → List Panel
unfolding show_each in_scope
show_panels page none = page.panels
show_panels page (some sel) =
    if truthy sel then show_each (in_scope page) sel page.panels else page.panels

-- `none` is the early return of a click that meets no item.
pub select : Option Item → ℕ → Page → Page × Option Segment
unfolding activate deactivate show_panels
select none k page = (page, none)
select (some item) k page = (
  record page { items = activate k (deactivate page.items); panels = show_panels page item.target },
  some (record { value = item.text; target = item.target }),
)

-- The listener.
pub click : ℕ → Page → Page × Option Segment
unfolding select
click k page = select (get_elem? page.items k) k page

-- The page after some clicks.
pub click_each : List ℕ → Page → Page
unfolding click
click_each [] page = page
click_each (k ∷ ks) page = click_each ks (click k page).0
