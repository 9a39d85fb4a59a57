-- ===== src/System/Theme.antt =====
-- `Adivento.theme` of docs/design/system/assets/adivento.js: the theme of the demo, without a colour
-- of the browser.
pub mod Refines
mod Tests
use adivento.Base.{
  ℕ, String, Bool, true, false, Option, none, some, List, [], ◌∷◌, ◌++◌, map, ◌===◌, string_eq,
  if◌then◌else◌, truthy,
}
use adivento.Adivento.Theme.{Storage, Action, click, sets, frames, advance, due}

-- The document as this object sees it; `storage` is `localStorage`, whose calls may throw.
pub record Page : Type 0 where
  pub attribute : Option String
  pub pressed : List String
  pub labels : List String
  pub storage : Storage
  pub theming : Bool
  pub frames : List ℕ
  pub events : List String

unfoldable pub sync_theme_controls : String → Page → Page
sync_theme_controls name p = record p {
  pressed = map (λ _. if name === "dark" then "true" else "false") p.pressed;
  labels = map (λ _. if name === "dark" then "Dark" else "Light") p.labels;
}

unfoldable pub get : Page → String
get p = elim p.attribute [ none ↦ "light" | some name ↦ if truthy name then name else "light" ]

-- `try { localStorage.setItem(…) } catch (e) {}`
unfoldable pub set_item : String → Storage → Storage
set_item name s = if s.writable then record s { item = some name } else s

-- `try { saved = localStorage.getItem(…) } catch (e) {}`
unfoldable pub get_item : Storage → Option String
get_item s = if s.readable then s.item else none

unfoldable pub set : String → Page → Page
unfolding sync_theme_controls set_item
set name p =
    let q = record p { theming = true; attribute = some name; storage = set_item name p.storage } in
    let r = sync_theme_controls name q in
    record r { events = name ∷ r.events; frames = r.frames ++ 2 ∷ [] }

unfoldable pub toggle : Page → Page
unfolding set get
toggle p = set (if get p === "dark" then "light" else "dark") p

unfoldable pub restore : Option String → Page → Page
unfolding set get sync_theme_controls
restore none p = sync_theme_controls (get p) p
restore (some name) p = if truthy name then set name p else sync_theme_controls (get p) p

unfoldable pub init : Page → Page
unfolding get_item restore
init p = restore (get_item p.storage) p

-- The removals of the class that are due after one more animation frame.
unfoldable pub frame : Page → Page
frame p = record p {
  theming = if due p.frames then false else p.theming;
  frames = advance p.frames;
}

unfoldable pub act : Page → Action → Page
unfolding toggle set frame
act p click = toggle p
act p (sets name) = set name p
act p frames = frame p

unfoldable pub run : Page → List Action → Page
unfolding act
run p [] = p
run p (a ∷ rest) = run (act p a) rest
