-- ===== src/Adivento/Boot.antt =====
-- `Adivento.init` of app/assets/javascripts/adivento.js, with what follows from it: the theme and the
-- charts together. They meet in the event `ds:theme`; the other objects share no state with them.
mod Tests
use native.Mathlib.Nat.{pow-suc}
use adivento.Base.{
  ℕ, zero, suc, ◌+◌, ◌*◌, ◌^◌, String, List, [], ◌∷◌, filter, length, Bool, true, false, ◌≡◌, refl,
  arith, ap, ◌∙◌, if◌then◌else◌,
}
use adivento.Number.{Number}
use adivento.Adivento.Theme
use adivento.Adivento.Theme.{Page, Action, click, sets, frames, run}
use adivento.Adivento.Theme.Shows.{IsSynced, run-init-IsSynced}
use adivento.Adivento.Chart.Listeners
use adivento.Adivento.Chart.Listeners.{
  Document, theme_events, theme_events-listeners, init-listeners,
}

doubled : (l k : ℕ) → l * 2 * 2 ^ k ≡ l * 2 ^ suc k
doubled l k = rw pow-suc (omega arith)

-- `css name` gives the variables of the theme `name`.
module _ (N : Number) (number : List ℕ → N.Num) (css : String → String → String) where
  pub record App : Type 0 where
    pub page : Page
    pub charts : Document N

  -- `theme.init` comes first: its event finds no listener of the charts.
  pub boot : App → App
  boot app =
      let page = Theme.init app.page in
      record { page = page; charts = Listeners.init N number (css (Theme.get page)) app.charts }

  -- Each choice of a theme dispatches one event, a frame none.
  pub chart_events : Page → Action → List (String → String)
  chart_events page click = css (Theme.get (Theme.act page click)) ∷ []
  chart_events page (sets name) = css (Theme.get (Theme.act page (sets name))) ∷ []
  chart_events page frames = []

  pub act : App → Action → App
  unfolding chart_events
  act app a = record {
    page = Theme.act app.page a;
    charts = theme_events N number (chart_events app.page a) app.charts;
  }

  pub run_app : App → List Action → App
  run_app app [] = app
  run_app app (a ∷ rest) = run_app (act app a) rest

  -- How many of the actions choose a theme.
  pub choices : List Action → ℕ
  choices [] = 0
  choices (click ∷ rest) = suc (choices rest)
  choices (sets name ∷ rest) = suc (choices rest)
  choices (frames ∷ rest) = choices rest

  run_app-page : (acts : List Action) (app : App) → (run_app app acts).page ≡ run app.page acts
  unfolding run_app act run
  run_app-page [] app = refl
  run_app-page (a ∷ rest) app = run_app-page rest (act app a)

  one-event :
      (e : String → String) (doc : Document N)
      → (theme_events N number (e ∷ []) doc).listeners ≡ doc.listeners * 2
  one-event e doc = theme_events-listeners N number (e ∷ []) doc

  run_app-listeners :
      (acts : List Action) (app : App)
      → (run_app app acts).charts.listeners ≡ app.charts.listeners * 2 ^ choices acts
  unfolding run_app act choices chart_events
  run_app-listeners [] app = omega arith
  run_app-listeners (click ∷ rest) app =
      run_app-listeners rest (act app click)
      ∙ ap (λ n. n * 2 ^ choices rest) (one-event _ app.charts)
      ∙ doubled app.charts.listeners (choices rest)
  run_app-listeners (sets name ∷ rest) app =
      run_app-listeners rest (act app (sets name))
      ∙ ap (λ n. n * 2 ^ choices rest) (one-event _ app.charts)
      ∙ doubled app.charts.listeners (choices rest)
  run_app-listeners (frames ∷ rest) app =
      run_app-listeners rest (act app frames)
      ∙ ap (λ n. n * 2 ^ choices rest) (theme_events-listeners N number [] app.charts ∙ omega arith)

  -- On a page that starts without listeners, after the boot and any actions the controls show the
  -- theme of the document, and the charts have one listener for the boot, doubled by each choice of
  -- a theme.
  pub run_app-boot :
      (app : App) (acts : List Action)
      → app.charts.listeners ≡ 0
      → IsSynced (run_app (boot app) acts).page
        × ((run_app (boot app) acts).charts.listeners ≡ 2 ^ choices acts)
  unfolding boot
  run_app-boot app acts none = (
    rw (run_app-page acts (boot app)) (run-init-IsSynced app.page acts),
    run_app-listeners acts (boot app)
        ∙ ap (λ n. n * 2 ^ choices acts) (init-listeners N number _ app.charts ∙ ap suc none)
        ∙ omega arith,
  )
