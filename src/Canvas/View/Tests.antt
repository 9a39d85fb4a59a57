-- ===== src/Canvas/View/Tests.antt =====
-- An overlay of two sections with its dropdown open, and a note.
use adivento.Base.{some, [], ◌∷◌, ◌≡◌, refl, string_eq, if◌then◌else◌, ◌===◌}
use adivento.Number.Exact.{exact}
use adivento.Canvas.Focus.{Overlay}
use adivento.Canvas.View.Overlay.Stage.{scale_of}

abbrev shown : Overlay
shown = record {
  section_id = "s";
  aid = "b";
  section_order = "s" ∷ "t" ∷ [];
  slot_ids = λ sid. if sid === "s" then "a" ∷ "b" ∷ [] else "c" ∷ [];
}

scale_bound :
    scale_of exact (some 1) (λ n. "n") (some 5000) (some 700) (some 260) (some 480) ≡ some 1
unfolding scale_of
scale_bound = refl

scale_limit :
    scale_of exact (some 1) (λ n. "n") (some 5000) (some 9000) (some 260) (some 480) ≡ some 2
unfolding scale_of
scale_limit = refl
