-- ===== src/Adivento/Theme/Tests.antt =====
-- Runs of the theme, and the theorems at concrete pages.
use adivento.Base.{String, true, false, not, Option, none, some, [], ◌∷◌, ◌≡◌, refl, string_eq}
use adivento.Adivento.Theme.{
  Page, Storage, get, set, toggle, init, frame, click, frames, act, run, due,
}
use adivento.Adivento.Theme.Shows.{IsSynced, run-init-IsSynced}
use adivento.Adivento.Theme.Saved.{get-init-run}
use adivento.Adivento.Theme.Frames.{run-frame-frame, frame-set}

abbrev storage : Option String → Storage
storage item = record { readable = true; writable = true; item = item }

-- A page as the server sends it, with one toggle, one label and a theme-color tag.
abbrev served : Option String → Page
served item = record {
  attribute = none;
  pressed = "" ∷ [];
  labels = "" ∷ [];
  meta = some "";
  storage = storage item;
  theming = false;
  frames = [];
  events = [];
}

dark_page : (init (served (some "dark"))).labels ≡ "Dark" ∷ []
unfolding init
dark_page = refl

dark_color : (toggle (served none)).meta ≡ some "#0F5136"
unfolding toggle
dark_color = refl

run-init-IsSynced_example : IsSynced (run (init (served (some "dark"))) (frames ∷ click ∷ []))
run-init-IsSynced_example = run-init-IsSynced (served (some "dark")) (frames ∷ click ∷ [])

served-light : get (served none) ≡ "light"
unfolding get
served-light = refl

run-storage :
    (run (set "dark" (served none)) (click ∷ frames ∷ [])).storage ≡ storage (some "light")
unfolding set act run
run-storage = refl

get-init-run_example :
    get (init (served (some "light"))) ≡ get (run (set "dark" (served none)) (click ∷ frames ∷ []))
unfolding run-storage
get-init-run_example =
    get-init-run "dark" (served none) (served (some "light")) (click ∷ frames ∷ []) refl
      (tt, (tt, tt)) refl refl refl

run-frame-frame_example :
    ((frame (frame (run (init (served (some "dark"))) (click ∷ frames ∷ click ∷ [])))).theming
      ≡ false)
    × ((frame (frame (run (init (served (some "dark"))) (click ∷ frames ∷ click ∷ [])))).frames
        ≡ [])
run-frame-frame_example =
    run-frame-frame (served (some "dark")) (click ∷ frames ∷ click ∷ []) refl refl

frame-set_example : (frame (set "dark" (served none))).theming ≡ not (due [])
frame-set_example = frame-set "dark" (served none)
