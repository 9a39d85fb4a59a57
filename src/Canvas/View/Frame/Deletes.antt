-- ===== src/Canvas/View/Frame/Deletes.antt =====
-- The clicks that the header of an artboard offers, and the deletion behind the menu.
use adivento.Base.{
  ℕ, zero, suc, Bool, true, false, some, some-injective, List, [], ◌∷◌, String, string_eq, ◌≡◌, ◌≢◌,
  refl, any, get_elem?, length, ltb, arith,
}
use adivento.Markup.Queries.{outcomes, texts_where, is_classed}
use adivento.Canvas.Menu.{
  Menu, Event, kebab, press_outside, export, delete, handle, on_event, click_delete, do_export,
  set_menu_open,
}
use adivento.Canvas.View.{dc_editable}
use adivento.Canvas.View.Frame.{
  Action, focus, rename, on_menu, export_as, event_of, header, grip, label_text, kebab_button,
  entries, expand_button, menu_button, icon, icon_dot, filled,
}

-- The menu after an action.
unfoldable pub after_action : Action → Menu → Menu
unfolding event_of
after_action focus m = m
after_action (rename s) m = m
after_action (on_menu e) m = handle e m
after_action (export_as k) m = handle (export true) m

unfoldable pub after_all : List Action → Menu → Menu
unfolding after_action
after_all [] m = m
after_all (a ∷ rest) m = after_all rest (after_action a m)

abbrev made : Bool → Bool → ℕ → ℕ → Menu
made o c d x = record { menu_open = o; confirming = c; deleted = d; exported = x }

abbrev long : List Action → Bool
long acts = ltb 1 (length acts)

-- A click on the header does at most one thing.
header-short :
    (label : String) (o c : Bool) (d x : ℕ)
    → any long (outcomes [] (header label (made o c d x))) ≡ false
unfolding header grip label_text kebab_button entries expand_button menu_button icon icon_dot filled
    dc_editable
header-short label true c d x = refl
header-short label false c d x = refl

any-get_elem? :
    {A : Type 0} (p : A → Bool) (xs : List A) (i : ℕ) (a : A)
    → any p xs ≡ false
    → get_elem? xs i ≡ some a
    → p a ≡ false
any-get_elem? p [] i a h e = cc
any-get_elem? p (x ∷ xs) zero a h e = ground (arith, some-injective x a e)
any-get_elem? p (x ∷ xs) (suc i) a h e = any-get_elem? p xs i a (ground arith) e

event-deleted :
    (o c : Bool) (d x : ℕ) (e : Event)
    → (handle e (made o c d x)).deleted ≢ d
    → (o ≡ true) × (c ≡ true)
unfolding handle on_event click_delete do_export set_menu_open
event-deleted true c d x kebab h = absurd (h refl)
event-deleted true c d x press_outside h = absurd (h refl)
event-deleted true c d x (export true) h = absurd (h refl)
event-deleted true c d x (export false) h = absurd (h refl)
event-deleted true true d x delete h = (refl, refl)
event-deleted true false d x delete h = absurd (h refl)
event-deleted false c d x kebab h = absurd (h refl)
event-deleted false c d x press_outside h = absurd (h refl)
event-deleted false c d x (export card) h = absurd (h refl)
event-deleted false c d x delete h = absurd (h refl)

actions-deleted :
    (o c : Bool) (d x : ℕ) (acts : List Action)
    → long acts ≡ false
    → (after_all acts (made o c d x)).deleted ≢ d
    → (o ≡ true) × (c ≡ true)
unfolding after_all after_action
actions-deleted o c d x [] s h = absurd (h refl)
actions-deleted o c d x (focus ∷ []) s h = absurd (h refl)
actions-deleted o c d x (rename t ∷ []) s h = absurd (h refl)
actions-deleted o c d x (on_menu e ∷ []) s h = event-deleted o c d x e h
actions-deleted o c d x (export_as k ∷ []) s h = event-deleted o c d x (export true) h
actions-deleted o c d x (a ∷ b ∷ rest) s h = absurd (ground arith)

-- The words on the delete row, if it is drawn.
abbrev pub delete_words : String → Menu → List String
delete_words label m = texts_where (is_classed "dc-danger") (header label m)

header-words :
    (label : String) (o c : Bool) (d x : ℕ)
    → (o ≡ true) × (c ≡ true)
    → delete_words label (made o c d x) ≡ "Click again to delete" ∷ []
unfolding header grip label_text kebab_button entries expand_button menu_button icon icon_dot filled
    dc_editable
header-words label true true d x h = refl
header-words label true false d x h = cc
header-words label false c d x h = cc

-- If a click on the header of an artboard deletes the artboard, then the menu was open and its
-- delete row read `Click again to delete`.
pub header-deleted :
    (label : String) (m : Menu) (i : ℕ) (acts : List Action)
    → get_elem? (outcomes [] (header label m)) i ≡ some acts
    → (after_all acts m).deleted ≢ m.deleted
    → delete_words label m ≡ "Click again to delete" ∷ []
header-deleted label m i acts e h =
    header-words label m.menu_open m.confirming m.deleted m.exported (
      actions-deleted m.menu_open m.confirming m.deleted m.exported acts
        (any-get_elem? long (outcomes [] (header label m)) i acts
          (header-short label m.menu_open m.confirming m.deleted m.exported) e)
        h)
