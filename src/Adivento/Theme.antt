-- ===== src/Adivento/Theme.antt =====
-- `Adivento.theme` of app/assets/javascripts/adivento.js: the theme of the document, the controls
-- and the colour that show it, its copy in `localStorage`, and the class that freezes transitions
-- for two animation frames.
pub mod Shows
pub mod Saved
pub mod Frames
mod Tests
use adivento.Base.{
  ℕ, zero, suc, String, Bool, true, false, Option, none, some, List, [], ◌∷◌, ◌++◌, map, ◌===◌,
  string_eq, if◌then◌else◌, or_else, truthy,
}

-- `localStorage`: `getItem` and `setItem` may throw, each by itself.
pub record Storage : Type 0 where
  pub readable : Bool
  pub writable : Bool
  pub item : Option String

-- The document as this object sees it. `attribute` is `data-theme`; `pressed` and `labels` are the
-- controls' `aria-pressed` and text; `meta` is the content of the theme-color tag, if the page has
-- one; `frames` holds for each pending removal of `ds-theming` the animation frames that are left;
-- `events` are the themes of the `ds:theme` events, the last one first.
pub record Page : Type 0 where
  pub attribute : Option String
  pub pressed : List String
  pub labels : List String
  pub meta : Option String
  pub storage : Storage
  pub theming : Bool
  pub frames : List ℕ
  pub events : List String

-- `THEME_COLORS[name] || THEME_COLORS.light`
pub theme_color : String → String
theme_color name =
    if name === "light" then "#FAF7F2" else (if name === "dark" then "#0F5136" else "#FAF7F2")

unfoldable pub pressed_text : String → String
pressed_text name = if name === "dark" then "true" else "false"

unfoldable pub label_text : String → String
label_text name = if name === "dark" then "Dark" else "Light"

unfoldable pub sync_theme_controls : String → Page → Page
unfolding pressed_text label_text
sync_theme_controls name p = record p {
  pressed = map (λ _. pressed_text name) p.pressed;
  labels = map (λ _. label_text name) p.labels;
}

unfoldable pub sync_theme_color : String → Page → Page
unfolding theme_color
sync_theme_color name p = record p {
  meta = elim p.meta [ none ↦ none | some old ↦ some (theme_color name) ];
}

-- `getAttribute("data-theme") || "light"`
unfoldable pub get : Page → String
get p = elim p.attribute [ none ↦ "light" | some name ↦ if truthy name then name else "light" ]

-- `try { localStorage.setItem(…) } catch (e) {}`
unfoldable pub save : String → Storage → Storage
save name s = if s.writable then record s { item = some name } else s

-- `try { saved = localStorage.getItem(…) } catch (e) {}`
unfoldable pub saved : Storage → Option String
saved s = if s.readable then s.item else none

-- `dispatchEvent`: the listener of `init` runs at once.
unfoldable pub dispatch : String → Page → Page
unfolding sync_theme_color
dispatch name p = sync_theme_color name (record p { events = name ∷ p.events })

unfoldable pub set : String → Page → Page
unfolding sync_theme_controls sync_theme_color save dispatch
set name p =
    let q = record p { theming = true; attribute = some name; storage = save name p.storage } in
    let r = dispatch name (sync_theme_color name (sync_theme_controls name q)) in
    record r { frames = r.frames ++ 2 ∷ [] }

-- `this.get() === "dark" ? "light" : "dark"`
unfoldable pub flip : String → String
flip name = if name === "dark" then "light" else "dark"

unfoldable pub toggle : Page → Page
unfolding set get flip
toggle p = set (flip (get p)) p

-- The two branches on the saved name; an empty one is falsy.
unfoldable pub restore : Option String → Page → Page
unfolding set get sync_theme_controls sync_theme_color
restore none p = sync_theme_color (get p) (sync_theme_controls (get p) p)
restore (some name) p =
    if truthy name then set name p else sync_theme_color (get p) (sync_theme_controls (get p) p)

unfoldable pub init : Page → Page
unfolding saved restore
init p = restore (saved p.storage) p

-- One animation frame: each removal comes a frame nearer, and the due ones take the class off.
pub advance : List ℕ → List ℕ
advance [] = []
advance (n ∷ ns) =
    let rest = advance ns in
    elim n [ zero ↦ rest | suc m ↦ elim m [ zero ↦ rest | suc k ↦ suc k ∷ rest ] ]

pub due : List ℕ → Bool
due [] = false
due (n ∷ ns) =
    let rest = due ns in elim n [ zero ↦ true | suc m ↦ elim m [ zero ↦ true | suc k ↦ rest ] ]

unfoldable pub frame : Page → Page
unfolding advance due
frame p = record p {
  theming = if due p.frames then false else p.theming;
  frames = advance p.frames;
}

-- What a visitor and the browser do to a page: a click on a control, a call of `set`, a frame.
pub data Action : Type 0 where
  click : Action
  sets : String → Action
  frames : Action

unfoldable pub act : Page → Action → Page
unfolding toggle set frame
act p click = toggle p
act p (sets name) = set name p
act p frames = frame p

unfoldable pub run : Page → List Action → Page
run p [] = p
run p (a ∷ rest) = run (act p a) rest
