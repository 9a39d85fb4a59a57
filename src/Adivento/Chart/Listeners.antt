-- ===== src/Adivento/Chart/Listeners.antt =====
-- `init` of the charts: it draws every chart of the document, and adds one more listener of
-- `ds:theme` that calls `init` again.
pub mod Draws
use native.Mathlib.Nat.{pow-suc}
use adivento.Base.{
  ℕ, zero, suc, ◌+◌, ◌*◌, ◌^◌, ◌≤◌, String, not, Option, none, some, List, [], ◌∷◌, map, filter,
  length, ◌===◌, nat_eq, if◌then◌else◌, or_else, ◌≡◌, refl, arith, ap, ap₂, ◌∙◌, false, Bool, ◌-◌,
  sym, ltb, Bool-cases, inl, inr,
}
use adivento.Number.{Number}
use adivento.Adivento.Chart.{Line, Spark, line, spark}

-- `s.split(c)` on the codes of a text
pub split : ℕ → List ℕ → List (List ℕ)
split c [] = [] ∷ []
split c (x ∷ xs) =
    let rest = split c xs in
    if x === c
    then [] ∷ rest
    else (elim rest [ [] ↦ (x ∷ []) ∷ [] | piece ∷ more ↦ (x ∷ piece) ∷ more ])

-- An svg with `data-ds-chart` or `data-ds-spark`, its `data-color`, what stands in it, and how many
-- times its `innerHTML` has been assigned.
pub record Svg (D : Type 0) : Type 0 where
  pub values : Option (List ℕ)
  pub color : Option String
  pub drawing : Option D
  pub draws : ℕ

-- The document: `listeners` counts the listeners of `ds:theme` that `init` has added.
pub record Document (N : Number) : Type 0 where
  pub charts : List (Svg (Line N))
  pub sparks : List (Svg (Spark N))
  pub listeners : ℕ

pub iterate {ℓ} : {S : Type ℓ} → ℕ → (S → S) → S → S
iterate zero f s = s
iterate (suc n) f s = iterate n f (f s)

doubled : (d n : ℕ) → (d + d) * 2 ^ n ≡ d * 2 ^ suc n
doubled d n = rw pow-suc (omega arith)

-- `number` is `Number` of a text.
module _ (N : Number) (number : List ℕ → N.Num) where
  open N use {Num, is_nan}

  -- `(attr || "").split(",").map(Number).filter((x) => !isNaN(x))`
  unfoldable pub read_values : Option (List ℕ) → List Num
  unfolding split
  read_values attr = filter (λ x. not (is_nan x)) (map number (split b',' (or_else attr [])))

  -- `none` is the early return of `line`.
  pub put_line : Option (Line N) → Svg (Line N) → Svg (Line N)
  put_line none svg = svg
  put_line (some d) svg = record svg { drawing = some d; draws = suc svg.draws }

  pub draw_line : (String → String) → List Num → Svg (Line N) → Svg (Line N)
  unfolding put_line
  draw_line css [] svg = svg
  draw_line css (v ∷ vs) svg = put_line (line N css (v ∷ vs) svg.color) svg

  pub draw_spark : (String → String) → List Num → Svg (Spark N) → Svg (Spark N)
  draw_spark css [] svg = svg
  draw_spark css (v ∷ vs) svg = record svg {
    drawing = some (spark N css (v ∷ vs) svg.color);
    draws = suc svg.draws;
  }

  unfoldable pub draw_chart : (String → String) → Svg (Line N) → Svg (Line N)
  unfolding draw_line
  draw_chart css svg = draw_line css (read_values svg.values) svg

  pub draw_sparkline : (String → String) → Svg (Spark N) → Svg (Spark N)
  unfolding draw_spark
  draw_sparkline css svg = draw_spark css (read_values svg.values) svg

  unfoldable pub init : (String → String) → Document N → Document N
  init css doc = record {
    charts = map (draw_chart css) doc.charts;
    sparks = map (draw_sparkline css) doc.sparks;
    listeners = suc doc.listeners;
  }

  -- A `ds:theme` event calls the listeners that are there when it is dispatched; `css` gives the
  -- variables of the new theme.
  unfoldable pub theme_event : (String → String) → Document N → Document N
  unfolding init iterate
  theme_event css doc = iterate doc.listeners (init css) doc

  unfoldable pub theme_events : List (String → String) → Document N → Document N
  theme_events [] doc = doc
  theme_events (css ∷ rest) doc = theme_events rest (theme_event css doc)

  iterate-listeners :
      (n : ℕ) (css : String → String) (doc : Document N)
      → (iterate n (init css) doc).listeners ≡ doc.listeners + n
  unfolding iterate init
  iterate-listeners zero css doc = omega arith
  iterate-listeners (suc n) css doc = omega (arith, iterate-listeners n css (init css doc))

  -- Each change of the theme doubles the listeners.
  pub theme_events-listeners :
      (es : List (String → String)) (doc : Document N)
      → (theme_events es doc).listeners ≡ doc.listeners * 2 ^ length es
  unfolding theme_events theme_event
  theme_events-listeners [] doc = omega arith
  theme_events-listeners (css ∷ es) doc =
      theme_events-listeners es (theme_event css doc)
      ∙ ap (λ n. n * 2 ^ length es) (iterate-listeners doc.listeners css doc)
      ∙ doubled doc.listeners (length es)

  pub init-listeners :
      (css : String → String) (doc : Document N) → (init css doc).listeners ≡ suc doc.listeners
  unfolding init
  init-listeners css doc = refl
