-- ===== src/Canvas/Menu.antt =====
-- docs/design/wireframes/v2/design-canvas.jsx, the menu of `DCArtboardFrame` with its delete row
-- that is clicked twice. The entries of the menu are rendered only while it is open, and a press
-- outside is listened to only then; the effect on `menuOpen` runs after each change of it.
pub mod Clicks
mod Tests
use adivento.Base.{ℕ, suc, Bool, true, false, not, List, [], ◌∷◌, if◌then◌else◌}

-- `deleted` counts the calls of `onDelete`, `exported` those of `dcExport`.
pub record Menu : Type 0 where
  pub menu_open : Bool
  pub confirming : Bool
  pub deleted : ℕ
  pub exported : ℕ

pub fresh_menu : Menu
fresh_menu = record { menu_open = false; confirming = false; deleted = 0; exported = 0 }

-- `setMenuOpen(o)`, and the effect: `if (!menuOpen) { setConfirming(false); return; }`
unfoldable pub set_menu_open : Bool → Menu → Menu
set_menu_open true m = record m { menu_open = true }
set_menu_open false m = record m { menu_open = false; confirming = false }

-- The delete row: `if (confirming) { setMenuOpen(false); onDelete(); } else setConfirming(true);`
unfoldable pub click_delete : Bool → Menu → Menu
unfolding set_menu_open
click_delete true m = set_menu_open false (record m { deleted = suc m.deleted })
click_delete false m = record m { confirming = true }

-- `doExport(kind)`: `card` says whether the card is mounted.
unfoldable pub do_export : Bool → Menu → Menu
unfolding set_menu_open
do_export card m =
    let closed = set_menu_open false m in
    if card then record closed { exported = suc closed.exported } else closed

pub data Event : Type 0 where
  kebab : Event
  press_outside : Event
  export : Bool → Event
  delete : Event

-- An event while the menu is open, or closed.
unfoldable pub on_event : Bool → Event → Menu → Menu
unfolding click_delete do_export set_menu_open
on_event o kebab m = set_menu_open (not o) m
on_event true press_outside m = set_menu_open false m
on_event true (export card) m = do_export card m
on_event true delete m = click_delete m.confirming m
on_event false press_outside m = m
on_event false (export card) m = m
on_event false delete m = m

unfoldable pub handle : Event → Menu → Menu
unfolding on_event
handle e m = on_event m.menu_open e m

pub run : List Event → Menu → Menu
unfolding handle
run [] m = m
run (e ∷ es) m = run es (handle e m)
