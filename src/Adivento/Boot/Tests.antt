-- ===== src/Adivento/Boot/Tests.antt =====
-- A boot with a saved theme, and the theorem at it.
use adivento.Base.{
  ℕ, ◌^◌, String, true, false, some, none, List, [], ◌∷◌, ◌≡◌, refl, Option, length,
}
use adivento.Number.Exact.{exact}
use adivento.Adivento.Theme.{click, sets, frames}
use adivento.Adivento.Theme.Shows.{IsSynced}
use adivento.Adivento.Boot.{App, boot, run_app, choices, run_app-boot}

abbrev number : List ℕ → Option ℕ
number piece = some (length piece)

abbrev css : String → String → String
css theme name = ""

abbrev app : App exact number css
app = record {
  page = record {
    attribute = none;
    pressed = "" ∷ [];
    labels = "" ∷ [];
    meta = none;
    storage = record { readable = true; writable = false; item = some "dark" };
    theming = false;
    frames = [];
    events = [];
  };
  charts = record { charts = []; sparks = []; listeners = 0 };
}

run_app-boot_example :
    IsSynced
      (run_app exact number css
        (boot exact number css app)
        (click ∷ frames ∷ sets "dark" ∷ [])).page
    × ((run_app exact number css
          (boot exact number css app)
          (click ∷ frames ∷ sets "dark" ∷ [])).charts.listeners
        ≡ 2 ^ choices exact number css (click ∷ frames ∷ sets "dark" ∷ []))
run_app-boot_example = run_app-boot exact number css app (click ∷ frames ∷ sets "dark" ∷ []) refl
