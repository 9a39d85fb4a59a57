-- ===== src/React/Theme/Tests.antt =====
-- A page with a saved theme, and the theorem at it.
use adivento.Base.{true, false, some, none, [], ◌∷◌, List, ◌≡◌, refl}
use adivento.Adivento.Theme
use adivento.Adivento.Theme.{Page, Action, click, sets, frames, get}
use adivento.React.Theme.{Provider, start, run}
use adivento.React.Theme.Mirrors.{start-mirrors}

abbrev page : Page
page = record {
  attribute = none;
  pressed = [];
  labels = [];
  meta = none;
  storage = record { readable = true; writable = true; item = some "dark" };
  theming = false;
  frames = [];
  events = [];
}

abbrev acts : List Action
acts = click ∷ sets "sepia" ∷ frames ∷ sets "sepia" ∷ click ∷ []

start-mirrors_example :
    (p : Provider) × (start "light" page.attribute page.storage ≡ some p)
    × (get (Theme.run (Theme.init page) acts) ≡ (run p acts).theme)
start-mirrors_example = start-mirrors page acts refl refl (tt, (refl, (tt, (refl, (tt, tt)))))
