-- ===== src/React/Charts/Paths.antt =====
-- The drawings beside those of `Adivento.chart`.
use adivento.Base.{
  String, Bool, Option, none, some, List, length, ltb, ◌≡◌, refl, inl, inr, Bool-cases,
}
use adivento.Number.{Number}
use adivento.Adivento.Chart.{Line, line, xy}
use adivento.React.Charts.{points2path, Drawing, chart}

module _ (N : Number) where
  points2path-xy : (points : List N.Num) → points2path N points 300 120 ≡ xy N points
  unfolding points2path xy
  points2path-xy points = refl

  -- What a `Chart` and a line of `Adivento.chart` have in common: grid, area, path and circle.
  abbrev pub Same : Option (Drawing N) → Option (Line N) → Type 0
  Same none none = Unit
  Same (some d) (some l) =
      (d.grid ≡ l.grid) × (d.area ≡ l.area) × (d.path ≡ l.path) × (d.circle ≡ l.circle)
  Same _ _ = ⊥

  -- For the same values the component and the script draw the same, or both nothing.
  pub chart-line :
      (css : String → String) (points : List N.Num) (color : String) (own : Option String)
      (axis : Bool)
      → Same (chart N points color axis) (line N css points own)
  unfolding chart line
  chart-line css points color own axis = elim (Bool-cases (ltb (length points) 2)) [
    | inl e ↦ rw e tt
    | inr e ↦ rw e (refl, refl, refl, refl)
  ]
