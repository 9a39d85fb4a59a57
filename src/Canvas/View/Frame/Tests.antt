-- ===== src/Canvas/View/Frame/Tests.antt =====
-- A header whose menu is armed, and a click on its delete row.
use adivento.Base.{true, some, List, [], ◌∷◌, ◌≡◌, ◌≢◌, refl, get_elem?, arith}
use adivento.Markup.Queries.{outcomes}
use adivento.Canvas.Menu.{Menu, delete, handle, on_event, click_delete, set_menu_open}
use adivento.Canvas.View.{dc_editable}
use adivento.Canvas.View.Frame.{
  Action, on_menu, header, grip, label_text, kebab_button, entries, expand_button, menu_button,
  icon, icon_dot, filled,
}
use adivento.Canvas.View.Frame.Deletes.{header-deleted, after_all, after_action, delete_words}

abbrev armed : Menu
armed = record { menu_open = true; confirming = true; deleted = 0; exported = 0 }

abbrev delete_click : List Action
delete_click = on_menu delete ∷ []

delete_place : get_elem? (outcomes [] (header "a" armed)) 23 ≡ some delete_click
unfolding header grip label_text kebab_button entries expand_button menu_button icon icon_dot filled
    dc_editable
delete_place = refl

deletes_once : (after_all delete_click armed).deleted ≡ 1
unfolding after_all after_action handle on_event click_delete set_menu_open
deletes_once = refl

is_deleted : (after_all delete_click armed).deleted ≢ armed.deleted
is_deleted h = absurd (omega (arith, deletes_once, h))

header-deleted_example : delete_words "a" armed ≡ "Click again to delete" ∷ []
header-deleted_example = header-deleted "a" armed 23 delete_click delete_place is_deleted
