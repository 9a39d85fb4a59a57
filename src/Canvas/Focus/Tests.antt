-- ===== src/Canvas/Focus/Tests.antt =====
-- A section in focus, and the theorems at it.
use adivento.Base.{
  ℕ, suc, ◌<◌, index_of, get_elem?, All, false, String, some, [], ◌∷◌, List, string_eq, ◌≡◌, refl,
  ===_apart, if◌then◌else◌, ◌===◌,
}
use adivento.Canvas.Focus.{Overlay, forward, backward, go, go_section, on_key, dropdown}
use adivento.Canvas.Focus.Sections.{go_section-IsFirst, IsFirst, has_slot}
use adivento.Canvas.Focus.Wrap.{away, places}

abbrev a : String
a = "a"

abbrev b : String
b = "b"

abbrev c : String
c = "c"

abbrev empty : String
empty = ""

abbrev slots : String → List String
slots s = if s === "flows" then a ∷ b ∷ c ∷ [] else if s === "notes" then "n" ∷ [] else []

abbrev view : Overlay
view = record {
  section_id = "flows";
  aid = "c";
  section_order = "flows" ∷ "gone" ∷ "notes" ∷ [];
  slot_ids = slots;
}

wraps : go forward view ≡ some ("flows", "a")
unfolding go
wraps = refl

steps_past : go_section forward view ≡ some ("notes", "n")
unfolding go_section
steps_past = refl

go_section-IsFirst_example :
    (k : ℕ) × (i : ℕ) × (q : String × String) × (index_of view.section_order "flows" ≡ some k)
    × (go_section backward view ≡ some q)
    × IsFirst view q
    × (suc i < 3)
    × (get_elem? view.section_order (away backward k (suc i) 3) ≡ some q.0)
    × All (λ at. has_slot view at ≡ false) (places backward k i 3)
go_section-IsFirst_example =
    go_section-IsFirst backward view "notes" "n" refl (===_apart {A = String} "notes" "flows" refl)
      (refl, refl, refl)

keys : on_key "ArrowDown" view ≡ some ("notes", "n")
unfolding on_key
keys = refl

shown : dropdown view ≡ "flows" ∷ "notes" ∷ []
unfolding dropdown
shown = refl
