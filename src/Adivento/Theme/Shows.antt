-- ===== src/Adivento/Theme/Shows.antt =====
-- The controls and the colour against the theme of the document.
use adivento.Base.{
  String, Option, none, some, List, [], ◌∷◌, map, ◌===◌, ===_iff, string_eq, AllSome, All,
  if◌then◌else◌, truthy, truthy-false, ◌≡◌, refl, ◌≢◌, ◌⊎◌, inl, inr, arith, ◌∙◌, subst, Bool-cases,
}
use adivento.Adivento.Theme.{
  Page, theme_color, pressed_text, label_text, sync_theme_controls, sync_theme_color, get, saved,
  set, flip, toggle, restore, init, frame, Action, click, sets, frames, act, run,
}

-- Every control says whether `name` is the dark theme, and the theme-color tag has its colour.
pub record Shows (name : String) (p : Page) : Type 0 where
  pub pressed : All (λ s. s ≡ pressed_text name) p.pressed
  pub labels : All (λ s. s ≡ label_text name) p.labels
  pub color : AllSome (λ s. s ≡ theme_color name) p.meta

All-map {ℓ} : {A : Type ℓ} (s : String) (xs : List A) → All (λ t. t ≡ s) (map (λ _. s) xs)
All-map s [] = tt
All-map s (x ∷ xs) = (refl, All-map s xs)

AllSome-sync :
    (name : String) (o : Option String)
    → AllSome
        (λ s. s ≡ theme_color name)
        (elim o [ none ↦ none | some old ↦ some (theme_color name) ])
AllSome-sync name none = tt
AllSome-sync name (some old) = refl

synced-Shows :
    (name : String) (p : Page) → Shows name (sync_theme_color name (sync_theme_controls name p))
unfolding sync_theme_color sync_theme_controls
synced-Shows name p = record {
  pressed = All-map _ p.pressed;
  labels = All-map _ p.labels;
  color = AllSome-sync name p.meta;
}

set-Shows : (name : String) (p : Page) → Shows name (set name p)
unfolding set
set-Shows name p = record {
  pressed = All-map _ p.pressed;
  labels = All-map _ p.labels;
  color = AllSome-sync name (sync_theme_color name p).meta;
}

-- The empty name is shown as the light theme.
Shows-empty : (p : Page) → Shows "" p → Shows "light" p
unfolding pressed_text label_text theme_color
Shows-empty p h = record { pressed = h.pressed; labels = h.labels; color = h.color }

-- The page shows the theme that `get` tells.
abbrev pub IsSynced : Page → Type 0
IsSynced p = Shows (get p) p

pub get-set :
    (name : String) (p : Page) → get (set name p) ≡ (if truthy name then name else "light")
unfolding get set
get-set name p = refl

set-IsSynced : (name : String) (p : Page) → IsSynced (set name p)
set-IsSynced name p = elim (Bool-cases (truthy name)) [
  | inl e ↦ rw (get-set name p, e) (set-Shows name p)
  | inr e ↦
      rw (get-set name p, e)
        (Shows-empty _ (subst (λ n. Shows n (set name p)) (truthy-false name e) (set-Shows name p)))
]

toggle-IsSynced : (p : Page) → IsSynced (toggle p)
unfolding toggle
toggle-IsSynced p = set-IsSynced _ p

frame-IsSynced : (p : Page) → IsSynced p → IsSynced (frame p)
unfolding frame get
frame-IsSynced p h = record { pressed = h.pressed; labels = h.labels; color = h.color }

fallback-IsSynced : (p : Page) → IsSynced (sync_theme_color (get p) (sync_theme_controls (get p) p))
unfolding sync_theme_color sync_theme_controls get
fallback-IsSynced p = synced-Shows (get p) p

restore-IsSynced : (o : Option String) (p : Page) → IsSynced (restore o p)
unfolding restore
restore-IsSynced none p = fallback-IsSynced p
restore-IsSynced (some name) p = elim (Bool-cases (truthy name)) [
  | inl e ↦ rw e (set-IsSynced name p)
  | inr e ↦ rw e (fallback-IsSynced p)
]

init-IsSynced : (p : Page) → IsSynced (init p)
unfolding init
init-IsSynced p = restore-IsSynced (saved p.storage) p

run-IsSynced : (acts : List Action) (p : Page) → IsSynced p → IsSynced (run p acts)
unfolding run act
run-IsSynced [] p h = h
run-IsSynced (click ∷ rest) p h = run-IsSynced rest (toggle p) (toggle-IsSynced p)
run-IsSynced (sets name ∷ rest) p h = run-IsSynced rest (set name p) (set-IsSynced name p)
run-IsSynced (frames ∷ rest) p h = run-IsSynced rest (frame p) (frame-IsSynced p h)

-- From `init` on, whatever the page and its storage were and whatever happens next, all controls
-- and the theme-color tag show the theme of the document.
pub run-init-IsSynced : (p : Page) (acts : List Action) → IsSynced (run (init p) acts)
run-init-IsSynced p acts = run-IsSynced acts (init p) (init-IsSynced p)

abbrev pub dark : String
dark = "dark"

abbrev pub light : String
light = "light"

pub flip-cases : (n : String) → ((n ≡ dark) × (flip n ≡ light)) ⊎ ((n ≢ dark) × (flip n ≡ dark))
unfolding flip
flip-cases n = elim (Bool-cases (n === dark)) [
  | inl e ↦ inl ((===_iff n dark).0 e, rw e)
  | inr e ↦ inr (λ d. cc ((===_iff n dark).1 d), rw e)
]

light-ne-dark : light ≢ dark
light-ne-dark e = cc ((===_iff light dark).1 e)

pub get-toggle : (p : Page) → get (toggle p) ≡ flip (get p)
unfolding toggle
get-toggle p = get-set (flip (get p)) p ∙ named (flip-cases (get p))
  where
    named :
        ((get p ≡ dark) × (flip (get p) ≡ light)) ⊎ ((get p ≢ dark) × (flip (get p) ≡ dark))
        → (if truthy (flip (get p)) then flip (get p) else "light") ≡ flip (get p)
    named (inl h) = rw h.1
    named (inr h) = rw h.1

-- A toggle of one of the two themes leads to the other one, and two toggles lead back.
pub get-toggle-toggle :
    (p : Page)
    → (get p ≡ "light") ⊎ (get p ≡ "dark")
    → ((get (toggle p) ≡ "light") ⊎ (get (toggle p) ≡ "dark"))
      × (get (toggle p) ≢ get p)
      × (get (toggle (toggle p)) ≡ get p)
get-toggle-toggle p h = rw (get-toggle (toggle p), get-toggle p) (flipped (get p) h)
  where
    flipped :
        (n : String)
        → (n ≡ light) ⊎ (n ≡ dark)
        → ((flip n ≡ light) ⊎ (flip n ≡ dark)) × (flip n ≢ n) × (flip (flip n) ≡ n)
    flipped n h = (
      ground (arith, flip-cases n),
      ground (arith, flip-cases n, light-ne-dark),
      ground (arith, flip-cases n, flip-cases (flip n), light-ne-dark),
    )
