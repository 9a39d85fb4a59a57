-- ===== src/React/Theme/Mirrors.antt =====
-- The provider beside `Adivento.theme`.
use adivento.Base.{
  String, true, false, Option, none, some, List, [], ◌∷◌, All, ◌===◌, string_eq, ===_iff,
  if◌then◌else◌, truthy, ◌≡◌, refl, arith, ap, sym, ◌∙◌,
}
use adivento.Adivento.Theme
use adivento.Adivento.Theme.{Storage, Page, Action, click, sets, frames, get, flip}
use adivento.Adivento.Theme.Shows.{get-set, get-toggle}
use adivento.Adivento.Theme.Saved.{IsNamed, get-init-readable, get-frame}
use adivento.React.Theme.{Provider, initial_theme, apply, start, set_theme, toggle, act, run}

set_theme-theme : (name : String) (p : Provider) → (set_theme name p).theme ≡ name
unfolding set_theme apply
set_theme-theme name p = ground (arith, ===_iff name p.theme)

act-mirrors :
    (a : Action) (page : Page) (p : Provider)
    → IsNamed a
    → get page ≡ p.theme
    → get (Theme.act page a) ≡ (act p a).theme
unfolding act Theme.act toggle flip
act-mirrors click page p n h =
    get-toggle page
    ∙ ap flip h
    ∙ sym (set_theme-theme (if p.theme === "dark" then "light" else "dark") p)
act-mirrors (sets name) page p n h = get-set name page ∙ rw n (sym (set_theme-theme name p))
act-mirrors frames page p n h = get-frame page ∙ h

run-mirrors :
    (acts : List Action) (page : Page) (p : Provider)
    → All IsNamed acts
    → get page ≡ p.theme
    → get (Theme.run page acts) ≡ (run p acts).theme
unfolding run Theme.run
run-mirrors [] page p n h = h
run-mirrors (a ∷ rest) page p n h =
    run-mirrors rest (Theme.act page a) (act p a) n.1 (act-mirrors a page p n.0 h)

initial_theme-elim :
    (o : Option String)
    → (elim o [ none ↦ "light" | some n ↦ if truthy n then n else "light" ])
      ≡ initial_theme "light" o
unfolding initial_theme
initial_theme-elim none = refl
initial_theme-elim (some n) = refl

-- On a page that is served without a theme and whose storage can be read, the provider with the
-- default theme starts, and after any toggles, frames and choices of named themes its theme is that
-- of `Adivento.theme`.
pub start-mirrors :
    (page : Page) (acts : List Action)
    → page.attribute ≡ none
    → page.storage.readable ≡ true
    → All IsNamed acts
    → (p : Provider) × (start "light" page.attribute page.storage ≡ some p)
      × (get (Theme.run (Theme.init page) acts) ≡ (run p acts).theme)
unfolding start apply
start-mirrors page acts bare readable n =
    let name = initial_theme "light" page.storage.item in
    let p : Provider = apply name (record {
      theme = name;
      attribute = page.attribute;
      storage = page.storage;
      theming = false;
      frames_left = [];
    }) in
    (
      p,
      ap (λ b. if b then some p else none) readable,
      run-mirrors acts (Theme.init page) p n
          (get-init-readable page bare readable ∙ initial_theme-elim page.storage.item),
    )
