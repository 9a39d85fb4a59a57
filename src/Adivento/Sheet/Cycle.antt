-- ===== src/Adivento/Sheet/Cycle.antt =====
-- A sheet that is used calmly (it is not opened or closed by a call while a removal is pending)
-- runs through three modes: shut, shown and closing.
use adivento.Base.{
  ℕ, suc, ◌≤◌, Bool, true, false, not, some, [], ◌∷◌, ◌≡◌, refl, length, ◌===◌, ◌≢◌, Bool-cases,
  inl, inr, nat_eq, arith,
}
use adivento.Adivento.Sheet.{Sheet, toggle, timeout, click_scrim, dimmed, loaded}

-- `f` is the fresh identity, `k` that of the scrim.
pub data Mode : Type 0 where
  shut : (f : ℕ) → Mode
  shown : (k f : ℕ) → Mode
  closing : (k f : ℕ) → Mode

abbrev pub rep : Mode → Sheet
rep (shut f) = loaded f
rep (shown k f) = record {
  hidden = false;
  scrim = some k;
  body = record { id = k; hidden = false } ∷ [];
  timers = [];
  fresh = f;
}
rep (closing k f) = record {
  hidden = true;
  scrim = some k;
  body = record { id = k; hidden = true } ∷ [];
  timers = k ∷ [];
  fresh = f;
}

pub data Step (s : Sheet) : Sheet → Type 0 where
  opens : s.timers ≡ [] → Step s (toggle true s)
  closes : s.timers ≡ [] → Step s (toggle false s)
  expires : Step s (timeout s)
  clicks : (k : ℕ) → Step s (click_scrim k s)

pub data Reach (s : Sheet) : Sheet → Type 0 where
  here : Reach s s
  next : {t u : Sheet} → Reach s t → Step t u → Reach s u

-- The sheet is one of the three pictures.
abbrev pub InMode : Sheet → Type 0
InMode s = (m : Mode) × (s ≡ rep m)

toggle-InMode : (show : Bool) (m : Mode) → (rep m).timers ≡ [] → InMode (toggle show (rep m))
unfolding toggle
toggle-InMode true (shut f) h = (shown f (suc f), refl)
toggle-InMode false (shut f) h = (shut f, refl)
toggle-InMode true (shown k f) h = (shown k f, refl)
toggle-InMode false (shown k f) h = (closing k f, ground arith)
toggle-InMode show (closing k f) h = absurd (cc)

timeout-InMode : (m : Mode) → InMode (timeout (rep m))
unfolding timeout
timeout-InMode (shut f) = (shut f, refl)
timeout-InMode (shown k f) = (shown k f, refl)
timeout-InMode (closing k f) = (shut f, ground arith)

click-InMode : (j : ℕ) (m : Mode) → InMode (click_scrim j (rep m))
unfolding click_scrim
click-InMode j (shut f) = (shut f, refl)
click-InMode j (shown k f) = elim (Bool-cases (k === j)) [
  | inl e ↦ (closing k f, ground arith)
  | inr e ↦ (shown k f, ground arith)
]
click-InMode j (closing k f) = (closing k f, ground arith)

Step-InMode : {s t : Sheet} → Step s t → InMode s → InMode t
Step-InMode (opens h) (m, e) = rw e (toggle-InMode true m (rw e at h))
Step-InMode (closes h) (m, e) = rw e (toggle-InMode false m (rw e at h))
Step-InMode expires (m, e) = rw e (timeout-InMode m)
Step-InMode (clicks k) (m, e) = rw e (click-InMode k m)

pub Reach-InMode : {s t : Sheet} → Reach s t → InMode s → InMode t
Reach-InMode here m = m
Reach-InMode (next r st) m = Step-InMode st (Reach-InMode r m)

rep-dimmed : (m : Mode) → (dimmed (rep m) ≡ not (rep m).hidden) × (length (rep m).body ≤ 1)
unfolding dimmed
rep-dimmed (shut f) = (refl, omega arith)
rep-dimmed (shown k f) = (refl, omega arith)
rep-dimmed (closing k f) = (refl, omega arith)

-- However often a freshly loaded sheet is calmly opened, closed, clicked away and left to its
-- timers, the page is dimmed exactly while the sheet is shown, and there is at most one scrim.
pub Reach-dimmed :
    (f : ℕ) {s : Sheet} → Reach (loaded f) s → (dimmed s ≡ not s.hidden) × (length s.body ≤ 1)
Reach-dimmed f r = let (m, e) = Reach-InMode r (shut f, refl) in rw e (rep-dimmed m)

-- The sheet is shown and the page is not dimmed.
abbrev pub Undimmed : Sheet → Type 0
Undimmed s = (s.hidden ≡ false) × (dimmed s ≡ false)

reopen-closing :
    (m : Mode)
    → (rep m).timers ≢ []
    → Undimmed (toggle true (rep m)) × Undimmed (timeout (toggle true (rep m)))
unfolding toggle timeout dimmed
reopen-closing (shut f) h = absurd (h refl)
reopen-closing (shown k f) h = absurd (h refl)
reopen-closing (closing k f) h = ground arith

-- A defect: a sheet that is opened again while the removal of its scrim is pending is shown over a
-- page that is not dimmed, at once and also after the removal.
pub reopen-Undimmed :
    (f : ℕ) {s : Sheet}
    → Reach (loaded f) s
    → s.timers ≢ []
    → Undimmed (toggle true s) × Undimmed (timeout (toggle true s))
reopen-Undimmed f r h =
    let (m, e) = Reach-InMode r (shut f, refl) in rw e (reopen-closing m (rw e at h))
