-- ===== src/Adivento/Theme/Frames.antt =====
-- The class that freezes transitions, frame by frame.
use adivento.Base.{
  ℕ, zero, suc, ◌≤◌, true, false, not, List, [], ◌∷◌, ◌++◌, All, ◌≡◌, refl, ◌≢◌, arith, Option,
  none, some, String, truthy, Bool-cases, inl, inr,
}
use adivento.Adivento.Theme.{
  Page, advance, due, set, flip, toggle, restore, init, frame, Action, click, sets, frames, act,
  run, get, saved,
}

-- Each pending removal is one or two frames away.
abbrev pub IsPending : List ℕ → Type 0
IsPending = All (λ n. (1 ≤ n) × (n ≤ 2))

-- While the class is on, a removal is pending.
pub record IsFreezing (p : Page) : Type 0 where
  pub pending : IsPending p.frames
  pub covered : p.theming ≡ true → p.frames ≢ []

IsPending-append : (ns : List ℕ) → IsPending ns → IsPending (ns ++ 2 ∷ [])
IsPending-append [] h = omega arith
IsPending-append (n ∷ ns) h = (h.0, IsPending-append ns h.1)

append-ne-nil : (ns : List ℕ) (n : ℕ) → (ns ++ n ∷ []) ≢ []
append-ne-nil [] n e = cc
append-ne-nil (m ∷ ns) n e = cc

set-IsFreezing : (name : String) (p : Page) → IsFreezing p → IsFreezing (set name p)
unfolding set
set-IsFreezing name p h = record {
  pending = IsPending-append p.frames h.pending;
  covered = λ _. append-ne-nil p.frames 2;
}

advance-IsPending : (ns : List ℕ) → IsPending ns → IsPending (advance ns)
unfolding advance
advance-IsPending [] h = tt
advance-IsPending (zero ∷ ns) h = absurd (omega arith)
advance-IsPending (suc zero ∷ ns) h = advance-IsPending ns h.1
advance-IsPending (suc (suc n) ∷ ns) h = (omega arith, advance-IsPending ns h.1)

-- If no removal is due, all of them stay.
advance-ne-nil : (ns : List ℕ) → due ns ≡ false → ns ≢ [] → advance ns ≢ []
unfolding advance due
advance-ne-nil [] h e = absurd (e refl)
advance-ne-nil (zero ∷ ns) h e = cc
advance-ne-nil (suc zero ∷ ns) h e = cc
advance-ne-nil (suc (suc n) ∷ ns) h e = λ d. cc

frame-IsFreezing : (p : Page) → IsFreezing p → IsFreezing (frame p)
unfolding frame
frame-IsFreezing p h = record {
  pending = advance-IsPending p.frames h.pending;
  covered = λ t. ground (arith, advance-ne-nil p.frames);
}

run-IsFreezing : (acts : List Action) (p : Page) → IsFreezing p → IsFreezing (run p acts)
unfolding run act toggle
run-IsFreezing [] p h = h
run-IsFreezing (click ∷ rest) p h =
    run-IsFreezing rest (toggle p) (set-IsFreezing (flip (get p)) p h)
run-IsFreezing (sets name ∷ rest) p h = run-IsFreezing rest (set name p) (set-IsFreezing name p h)
run-IsFreezing (frames ∷ rest) p h = run-IsFreezing rest (frame p) (frame-IsFreezing p h)

-- After two frames nothing is pending, and a removal was due in one of them.
advance-twice :
    (ns : List ℕ)
    → IsPending ns
    → (advance (advance ns) ≡ []) × (ns ≢ [] → due ns ≡ false → due (advance ns) ≡ true)
unfolding advance due
advance-twice [] h = (refl, λ n. absurd (n refl))
advance-twice (zero ∷ ns) h = absurd (omega arith)
advance-twice (suc zero ∷ ns) h = ((advance-twice ns h.1).0, λ n d. cc)
advance-twice (suc (suc zero) ∷ ns) h = ((advance-twice ns h.1).0, λ n d. refl)
advance-twice (suc (suc (suc n)) ∷ ns) h = absurd (omega arith)

frame-frame :
    (p : Page)
    → IsFreezing p
    → ((frame (frame p)).theming ≡ false) × ((frame (frame p)).frames ≡ [])
unfolding frame
frame-frame p h = ground (arith, advance-twice p.frames, h.covered)

restore-IsFreezing : (o : Option String) (p : Page) → IsFreezing p → IsFreezing (restore o p)
unfolding restore
restore-IsFreezing none p h = record { pending = h.pending; covered = h.covered }
restore-IsFreezing (some name) p h = elim (Bool-cases (truthy name)) [
  | inl e ↦ rw e (set-IsFreezing name p h)
  | inr e ↦ rw e (record { pending = h.pending; covered = h.covered })
]

-- A page that starts without the class never keeps it: after `init` and any actions, two frames in
-- which no theme is chosen take it off and leave nothing pending.
pub run-frame-frame :
    (p : Page) (acts : List Action)
    → p.theming ≡ false
    → p.frames ≡ []
    → ((frame (frame (run (init p) acts))).theming ≡ false)
      × ((frame (frame (run (init p) acts))).frames ≡ [])
unfolding init
run-frame-frame p acts off quiet = frame-frame (run (init p) acts) (
    run-IsFreezing acts (init p) (
      restore-IsFreezing (saved p.storage) p (record { pending = rw quiet tt; covered = λ t. cc })))

due-append : (ns : List ℕ) → due (ns ++ 2 ∷ []) ≡ due ns
unfolding due
due-append [] = refl
due-append (zero ∷ ns) = refl
due-append (suc zero ∷ ns) = refl
due-append (suc (suc n) ∷ ns) = due-append ns

-- A choice freezes transitions for the whole next frame exactly if no removal of an earlier choice
-- is due in that frame: choices in quick succession cut the freeze of the later one short.
pub frame-set : (name : String) (p : Page) → (frame (set name p)).theming ≡ not (due p.frames)
unfolding frame set
frame-set name p = rw (due-append p.frames) (ground arith)
