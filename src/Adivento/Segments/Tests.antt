-- ===== src/Adivento/Segments/Tests.antt =====
-- Clicks on a group of two tabs, and the theorems at them.
use adivento.Base.{
  ℕ, String, Bool, true, false, some, [], ◌∷◌, get_elem?, nat_beq, map, inl, ◌≡◌, refl,
}
use adivento.Adivento.Segments.{Item, Panel, Page, click, click_each}
use adivento.Adivento.Segments.Laws.{click_each-panels, shown, last_target}

abbrev tab : String → Bool → Item
tab name active = record { active = active; target = some name; text = name }

abbrev panel : ℕ → String → Panel
panel e name = record { element = e; name = name; hidden = true }

abbrev scope : ℕ → Bool
scope e = elim (nat_beq e 3) [ true ↦ false | false ↦ true ]

-- The group's scope holds the panels 1 and 2, and not 3.
abbrev tabs : Page
tabs = record {
  items = tab "#bets" true ∷ tab "#orders" false ∷ [];
  tabs = some "#main";
  root = λ s. some scope;
  panels = panel 1 "bets" ∷ panel 2 "orders" ∷ panel 3 "orders" ∷ [];
}

clicked :
    (click 1 tabs).0.panels
    ≡ panel 1 "bets"
      ∷ record { element = 2; name = "orders"; hidden = false }
      ∷ panel 3 "orders"
      ∷ []
unfolding click
clicked = refl

-- The tabs are clicked twice, and then beside every item.
click_each-panels_example :
    get_elem? (click_each (0 ∷ 1 ∷ 7 ∷ []) tabs).panels 1
    ≡ some (
        shown scope
          (last_target (0 ∷ 1 ∷ 7 ∷ []) (map (λ x. x.target) tabs.items))
          (panel 2 "orders"))
click_each-panels_example =
    click_each-panels (0 ∷ 1 ∷ 7 ∷ []) tabs scope 1 (panel 2 "orders")
      (inl ("#main", refl, refl, refl)) refl
