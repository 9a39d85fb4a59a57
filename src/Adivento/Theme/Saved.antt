-- ===== src/Adivento/Theme/Saved.antt =====
-- What a page that is loaded later finds in `localStorage`.
use adivento.Base.{
  Bool-cases, ap, none, Option, if◌then◌else◌, String, true, false, some, List, [], ◌∷◌, All,
  truthy, ◌≡◌, refl, arith, inl, inr, sym, ◌∙◌,
}
use adivento.Adivento.Theme.{
  Page, get, save, saved, flip, set, toggle, restore, init, frame, Action, click, sets, frames, act,
  run,
}
use adivento.Adivento.Theme.Shows.{get-set, flip-cases}

-- A theme that the page has chosen is stored, if the storage works.
pub record IsSaved (p : Page) : Type 0 where
  pub stored : p.storage.writable ≡ true → p.storage.item ≡ p.attribute
  pub named : (name : String) × (p.attribute ≡ some name) × (truthy name ≡ true)

-- No action chooses the empty name.
abbrev pub IsNamed : Action → Type 0
IsNamed (sets name) = truthy name ≡ true
IsNamed click = Unit
IsNamed frames = Unit

set-IsSaved : (name : String) (p : Page) → truthy name ≡ true → IsSaved (set name p)
unfolding set save
set-IsSaved name p h = record { stored = λ w. ground arith; named = (name, refl, h) }

pub flip-truthy : (name : String) → truthy (flip name) ≡ true
flip-truthy name = elim (flip-cases name) [ inl h ↦ rw h.1 | inr h ↦ rw h.1 ]

frame-IsSaved : (p : Page) → IsSaved p → IsSaved (frame p)
unfolding frame
frame-IsSaved p h = record { stored = h.stored; named = h.named }

run-IsSaved : (acts : List Action) (p : Page) → All IsNamed acts → IsSaved p → IsSaved (run p acts)
unfolding run act toggle
run-IsSaved [] p ok h = h
run-IsSaved (click ∷ rest) p ok h =
    run-IsSaved rest (toggle p) ok.1 (set-IsSaved (flip (get p)) p (flip-truthy (get p)))
run-IsSaved (sets name ∷ rest) p ok h = run-IsSaved rest (set name p) ok.1 (set-IsSaved name p ok.0)
run-IsSaved (frames ∷ rest) p ok h = run-IsSaved rest (frame p) ok.1 (frame-IsSaved p h)

get-named : (p : Page) (name : String) → p.attribute ≡ some name → truthy name ≡ true → get p ≡ name
unfolding get
get-named p name e t = rw (e, t)

get-init :
    (r : Page) (name : String)
    → saved r.storage ≡ some name
    → truthy name ≡ true
    → get (init r) ≡ name
unfolding init restore
get-init r name e t = rw (e, t, get-set name r, t)

get-restore :
    (o : Option String) (p : Page)
    → p.attribute ≡ none
    → get (restore o p) ≡ (elim o [ none ↦ "light" | some n ↦ if truthy n then n else "light" ])
unfolding restore get
get-restore none p e = rw e refl
get-restore (some n) p e = elim (Bool-cases (truthy n)) [
  | inl t ↦ rw (t, get-set n p, t) refl
  | inr f ↦ rw (f, e) refl
]

-- A page without the attribute starts with the saved theme if it has a name, and else with light.
pub get-init-readable :
    (p : Page)
    → p.attribute ≡ none
    → p.storage.readable ≡ true
    → get (init p)
      ≡ (elim p.storage.item [ none ↦ "light" | some n ↦ if truthy n then n else "light" ])
unfolding init saved
get-init-readable p e r =
    ap (λ b. get (restore (if b then p.storage.item else none) p)) r
    ∙ get-restore p.storage.item p e

pub get-frame : (p : Page) → get (frame p) ≡ get p
unfolding get frame
get-frame p = refl

-- Once a theme was chosen, and whatever named themes are chosen after it, a page that is loaded
-- later with the same working storage starts with the theme of this page.
pub get-init-run :
    (name : String) (p r : Page) (acts : List Action)
    → truthy name ≡ true
    → All IsNamed acts
    → (run (set name p) acts).storage.readable ≡ true
    → (run (set name p) acts).storage.writable ≡ true
    → r.storage ≡ (run (set name p) acts).storage
    → get (init r) ≡ get (run (set name p) acts)
unfolding saved
get-init-run name p r acts t ok readable writable same =
    let q = run (set name p) acts in
    let h = run-IsSaved acts (set name p) ok (set-IsSaved name p t) in
    let (last, at, named) = h.named in
    get-init r last (rw (same, readable) (h.stored writable ∙ at)) named
    ∙ sym (get-named q last at named)

-- A storage that throws on reading leaves the theme that the page was served with.
pub get-init-unreadable : (p : Page) → p.storage.readable ≡ false → get (init p) ≡ get p
unfolding init restore saved get
get-init-unreadable p h = rw h
