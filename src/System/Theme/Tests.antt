-- ===== src/System/Theme/Tests.antt =====
-- A page with a saved theme, on which a control is clicked.
use adivento.Base.{true, false, none, some, List, [], ◌∷◌, ◌≡◌, refl}
use adivento.Adivento.Theme as App
use adivento.Adivento.Theme.{Action, click, frames}
use adivento.System.Theme.{run, init, get}
use adivento.System.Theme.Refines.{demo_page, demo_page-run-init}

abbrev page : App.Page
page = record {
  attribute = none;
  pressed = "false" ∷ [];
  labels = "Light" ∷ [];
  meta = some "#FAF7F2";
  storage = record { readable = true; writable = false; item = some "dark" };
  theming = false;
  frames = [];
  events = [];
}

abbrev acts : List Action
acts = frames ∷ frames ∷ click ∷ []

after_click : get (run (init (demo_page page)) acts) ≡ "light"
unfolding run init get
after_click = refl

demo_page-run-init_example :
    demo_page (App.run (App.init page) acts) ≡ run (init (demo_page page)) acts
demo_page-run-init_example = demo_page-run-init page acts
