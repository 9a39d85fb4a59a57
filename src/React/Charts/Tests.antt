-- ===== src/React/Charts/Tests.antt =====
-- Drawings over whole numbers.
use adivento.Base.{some, none, [], ◌∷◌, ◌≡◌, refl}
use adivento.Number.Exact.{exact}
use adivento.React.Charts.{points2path, sparkline}

corners :
    points2path exact (some 0 ∷ some 100 ∷ []) 300 120
    ≡ (some 0, some 120) ∷ (some 300, some 0) ∷ []
unfolding points2path
corners = refl

single : sparkline exact (some 7 ∷ []) 72 22 ≡ none
unfolding sparkline
single = refl
