-- ===== src/System/Theme/Refines.antt =====
-- The theme of the application against that of the demo.
use adivento.Base.{
  String, Option, none, some, List, [], ◌∷◌, ◌≡◌, refl, ap, ◌∙◌, truthy, Bool-cases, inl, inr,
}
use adivento.Adivento.Theme as App
use adivento.Adivento.Theme.{Action, click, sets, frames}
use adivento.System.Theme.{
  Page, sync_theme_controls, get, set, toggle, restore, init, frame, act, run,
}

-- What the demo sees of a page of the application: all but the colour of the browser.
abbrev pub demo_page : App.Page → Page
demo_page p = record {
  attribute = p.attribute;
  pressed = p.pressed;
  labels = p.labels;
  storage = p.storage;
  theming = p.theming;
  frames = p.frames;
  events = p.events;
}

demo_page-set : (name : String) (p : App.Page) → demo_page (App.set name p) ≡ set name (demo_page p)
unfolding App.set App.dispatch App.sync_theme_color App.sync_theme_controls App.save set
demo_page-set name p = refl

demo_page-controls :
    (name : String) (p : App.Page)
    → demo_page (App.sync_theme_color name (App.sync_theme_controls name p))
      ≡ sync_theme_controls name (demo_page p)
unfolding App.sync_theme_color App.sync_theme_controls sync_theme_controls
demo_page-controls name p = refl

get-demo_page : (p : App.Page) → get (demo_page p) ≡ App.get p
unfolding App.get get
get-demo_page p = refl

demo_page-toggle : (p : App.Page) → demo_page (App.toggle p) ≡ toggle (demo_page p)
unfolding App.toggle toggle App.flip get App.get
demo_page-toggle p = demo_page-set _ p

demo_page-restore :
    (o : Option String) (p : App.Page) → demo_page (App.restore o p) ≡ restore o (demo_page p)
unfolding App.restore restore get App.get
demo_page-restore none p = demo_page-controls _ p
demo_page-restore (some name) p = elim (Bool-cases (truthy name)) [
  | inl e ↦ rw e (demo_page-set name p)
  | inr e ↦ rw e (demo_page-controls _ p)
]

demo_page-init : (p : App.Page) → demo_page (App.init p) ≡ init (demo_page p)
unfolding App.init init App.saved
demo_page-init p = demo_page-restore (App.saved p.storage) p

demo_page-act : (p : App.Page) (a : Action) → demo_page (App.act p a) ≡ act (demo_page p) a
unfolding App.act act App.frame frame
demo_page-act p click = demo_page-toggle p
demo_page-act p (sets name) = demo_page-set name p
demo_page-act p frames = refl

demo_page-run :
    (acts : List Action) (p : App.Page) → demo_page (App.run p acts) ≡ run (demo_page p) acts
unfolding App.run run
demo_page-run [] p = refl
demo_page-run (a ∷ rest) p =
    demo_page-run rest (App.act p a) ∙ ap (λ q. run q rest) (demo_page-act p a)

-- The theme of the application refines that of the demo: from `init` on, whatever the visitor and the
-- browser do, the page of the application is that of the demo, but for the colour of the browser,
-- which the demo does not have.
pub demo_page-run-init :
    (p : App.Page) (acts : List Action)
    → demo_page (App.run (App.init p) acts) ≡ run (init (demo_page p)) acts
demo_page-run-init p acts =
    demo_page-run acts (App.init p) ∙ ap (λ q. run q acts) (demo_page-init p)
