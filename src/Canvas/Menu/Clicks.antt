-- ===== src/Canvas/Menu/Clicks.antt =====
-- Clicks on the delete row, over sessions of the menu.
use adivento.Base.{ℕ, suc, ◌≤◌, true, false, List, [], ◌∷◌, ◌++◌, ◌≡◌, ◌≢◌, refl, arith}
use adivento.Canvas.Menu.{
  Menu, fresh_menu, set_menu_open, click_delete, do_export, Event, kebab, press_outside, export,
  delete, on_event, handle, run,
}

-- How many events in a row, at the end of the session, are clicks on the delete row; `n` were
-- before the session.
abbrev pub clicks : ℕ → List Event → ℕ
clicks n [] = n
clicks n (delete ∷ es) = clicks (suc n) es
clicks n (e ∷ es) = clicks 0 es

-- A closed menu is not armed, and an armed one was clicked just before.
abbrev Armed : ℕ → Menu → Type 0
Armed n m = (m.menu_open ≡ false → m.confirming ≡ false) × (m.confirming ≡ true → 1 ≤ n)

Armed-handle : (n : ℕ) (e : Event) (m : Menu) → Armed n m → Armed (clicks n (e ∷ [])) (handle e m)
unfolding handle on_event click_delete do_export set_menu_open
Armed-handle n kebab m h = ground arith
Armed-handle n press_outside m h = ground arith
Armed-handle n (export card) m h = ground arith
Armed-handle n delete m h = ground arith

clicks-cons :
    (n : ℕ) (e : Event) (es : List Event) → clicks n (e ∷ es) ≡ clicks (clicks n (e ∷ [])) es
clicks-cons n kebab es = refl
clicks-cons n press_outside es = refl
clicks-cons n (export card) es = refl
clicks-cons n delete es = refl

clicks-append : (n : ℕ) (es fs : List Event) → clicks n (es ++ fs) ≡ clicks (clicks n es) fs
clicks-append n [] fs = refl
clicks-append n (e ∷ es) fs =
    rw (clicks-cons n e (es ++ fs))
      (rw (clicks-cons n e es) (clicks-append (clicks n (e ∷ [])) es fs))

Armed-run : (n : ℕ) (es : List Event) (m : Menu) → Armed n m → Armed (clicks n es) (run es m)
unfolding run
Armed-run n [] m h = h
Armed-run n (e ∷ es) m h =
    rw (clicks-cons n e es) (Armed-run (clicks n (e ∷ [])) es (handle e m) (Armed-handle n e m h))

handle-last :
    (n : ℕ) (e : Event) (m : Menu)
    → Armed n m
    → (handle e m).deleted ≢ m.deleted
    → (m.menu_open ≡ true)
      × (2 ≤ clicks n (e ∷ []))
      × ((handle e m).deleted ≡ suc m.deleted)
      × ((handle e m).menu_open ≡ false)
unfolding handle on_event click_delete do_export set_menu_open
handle-last n kebab m h d = ground arith
handle-last n press_outside m h d = ground arith
handle-last n (export card) m h d = ground arith
handle-last n delete m h d = ground arith

-- In any session, if an event deletes the artboard, the menu was open, the event and the one
-- before it were clicks on the delete row, the artboard is deleted once, and the menu is closed.
pub run-deleted :
    (es : List Event) (e : Event)
    → (handle e (run es fresh_menu)).deleted ≢ (run es fresh_menu).deleted
    → ((run es fresh_menu).menu_open ≡ true)
      × (2 ≤ clicks 0 (es ++ e ∷ []))
      × ((handle e (run es fresh_menu)).deleted ≡ suc (run es fresh_menu).deleted)
      × ((handle e (run es fresh_menu)).menu_open ≡ false)
unfolding fresh_menu
run-deleted es e d = rw (clicks-append 0 es (e ∷ [])) (
    handle-last (clicks 0 es) e (run es fresh_menu) (Armed-run 0 es fresh_menu (λ f. refl, λ f. cc))
      d)
