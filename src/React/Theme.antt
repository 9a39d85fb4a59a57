-- ===== src/React/Theme.antt =====
-- `ThemeProvider` of docs/design/system/react/theme.jsx. `localStorage` is there, and its reading may
-- throw, which stops the first render; the effect that applies a theme runs when the theme changes.
pub mod Mirrors
mod Tests
use adivento.Base.{
  ℕ, String, Bool, true, false, Option, none, some, List, [], ◌∷◌, ◌++◌, ◌===◌, string_eq,
  if◌then◌else◌, truthy,
}
use adivento.Adivento.Theme.{Storage, Action, click, sets, frames, save, advance, due}

-- The state, and what the provider writes: `data-theme`, the storage, and the class `ds-theming` with
-- the frames that are left for each of its removals.
pub record Provider : Type 0 where
  pub theme : String
  pub attribute : Option String
  pub storage : Storage
  pub theming : Bool
  pub frames_left : List ℕ

-- `if (saved) return saved;` and the default
pub initial_theme : String → Option String → String
initial_theme default none = default
initial_theme default (some name) = if truthy name then name else default

-- `apply(name)`
pub apply : String → Provider → Provider
apply name p = record p {
  attribute = some name;
  storage = save name p.storage;
  theming = true;
  frames_left = p.frames_left ++ 2 ∷ [];
}

-- The first render and its effect; `none` if the storage throws.
pub start : String → Option String → Storage → Option Provider
unfolding initial_theme apply
start default attribute s =
    let name = initial_theme default s.item in
    if s.readable
    then some (
        apply name (record {
          theme = name;
          attribute = attribute;
          storage = s;
          theming = false;
          frames_left = [];
        }))
    else none

-- `setTheme(name)`: React does nothing if the state is the same.
pub set_theme : String → Provider → Provider
unfolding apply
set_theme name p = if name === p.theme then p else apply name (record p { theme = name })

-- `toggle()`
pub toggle : Provider → Provider
unfolding set_theme
toggle p = set_theme (if p.theme === "dark" then "light" else "dark") p

-- A click on `ThemeToggle`, a call of `setTheme`, and an animation frame.
pub act : Provider → Action → Provider
unfolding toggle set_theme
act p click = toggle p
act p (sets name) = set_theme name p
act p frames = record p {
  theming = if due p.frames_left then false else p.theming;
  frames_left = advance p.frames_left;
}

pub run : Provider → List Action → Provider
unfolding act
run p [] = p
run p (a ∷ rest) = run (act p a) rest
