-- ===== src/Adivento/Chart/Listeners/Draws.antt =====
-- How often the charts are drawn when the theme changes.
use native.Mathlib.Nat.{pow-suc}
use adivento.Base.{
  ℕ, zero, suc, ◌+◌, ◌*◌, ◌^◌, String, Option, none, some, List, [], ◌∷◌, map, length, nat_eq,
  if◌then◌else◌, ◌≡◌, refl, arith, ap, ap₂, ◌∙◌, false, Bool, ◌-◌, sym, ltb, Bool-cases, inl, inr,
}
use adivento.Number.{Number}
use adivento.Adivento.Chart.{Line, Spark, line, spark}
use adivento.Adivento.Chart.Listeners.{
  Svg, Document, iterate, read_values, put_line, draw_line, draw_spark, draw_chart, draw_sparkline,
  init, theme_event, theme_events, theme_events-listeners, init-listeners,
}

power_above : (n : ℕ) → 2 ^ n ≡ suc (2 ^ n - 1)
power_above zero = refl
power_above (suc n) = let h = power_above n in rw pow-suc (omega (arith, h))

if-some {ℓ} :
    {A : Type ℓ} (b : Bool) (a : A) → b ≡ false → (d : A) × ((if b then none else some a) ≡ some d)
if-some b a e = (a, rw e refl)

module _ (N : Number) (number : List ℕ → N.Num) where
  open N use {Num}

  -- The chart after `m` draws with these variables, `m` above 0: one with fewer than two numbers is
  -- left alone.
  abbrev pub redrawn : (String → String) → ℕ → Svg (Line N) → Svg (Line N)
  redrawn css m svg =
      let points = read_values N number svg.values in
      if ltb (length points) 2
      then svg
      else record svg { drawing = line N css points svg.color; draws = svg.draws + m }

  -- The same for a sparkline: one without a number is left alone.
  abbrev pub resparked : (String → String) → ℕ → Svg (Spark N) → Svg (Spark N)
  resparked css m svg =
      let points = read_values N number svg.values in
      if ltb (length points) 1
      then svg
      else record svg { drawing = some (spark N css points svg.color); draws = svg.draws + m }

  line_one :
      (css : String → String) (v : Num) (color : Option String) → line N css (v ∷ []) color ≡ none
  unfolding line
  line_one css v color = refl

  line_more :
      (css : String → String) (v w : Num) (vs : List Num) (color : Option String)
      → (d : Line N) × (line N css (v ∷ w ∷ vs) color ≡ some d)
  unfolding line
  line_more css v w vs color = if-some (ltb (length (v ∷ w ∷ vs)) 2) _ (ground arith)

  draw_line-once :
      (css : String → String) (vs : List Num) (svg : Svg (Line N))
      → draw_line N number css vs svg ≡ (
          if ltb (length vs) 2
          then svg
          else record svg { drawing = line N css vs svg.color; draws = svg.draws + 1 })
  unfolding draw_line put_line
  draw_line-once css [] svg = refl
  draw_line-once css (v ∷ []) svg = ap (λ o. put_line N number o svg) (line_one css v svg.color)
  draw_line-once css (v ∷ w ∷ vs) svg =
      let e : ltb (length (v ∷ w ∷ vs)) 2 ≡ false = ground arith in
      let (d, l) = line_more css v w vs svg.color in
      ap (λ o. put_line N number o svg) l
      ∙ rw (e, l) (ap (λ n. record svg { drawing = some d; draws = n }) (omega arith))

  draw_chart-redrawn :
      (css : String → String) (svg : Svg (Line N)) → draw_chart N number css svg ≡ redrawn css 1 svg
  unfolding draw_chart
  draw_chart-redrawn css svg = draw_line-once css (read_values N number svg.values) svg

  draw_spark-once :
      (css : String → String) (vs : List Num) (svg : Svg (Spark N))
      → draw_spark N number css vs svg ≡ (
          if ltb (length vs) 1
          then svg
          else record svg { drawing = some (spark N css vs svg.color); draws = svg.draws + 1 })
  unfolding draw_spark
  draw_spark-once css [] svg = refl
  draw_spark-once css (v ∷ vs) svg =
      let e : ltb (length (v ∷ vs)) 1 ≡ false = ground arith in
      rw e (
        ap (λ n. record svg { drawing = some (spark N css (v ∷ vs) svg.color); draws = n })
          (omega arith))

  draw_sparkline-resparked :
      (css : String → String) (svg : Svg (Spark N))
      → draw_sparkline N number css svg ≡ resparked css 1 svg
  unfolding draw_sparkline
  draw_sparkline-resparked css svg = draw_spark-once css (read_values N number svg.values) svg

  redrawn-redrawn :
      (css : String → String) (a b : ℕ) (svg : Svg (Line N))
      → redrawn css a (redrawn css b svg) ≡ redrawn css (b + a) svg
  redrawn-redrawn css a b svg =
      elim (Bool-cases (ltb (length (read_values N number svg.values)) 2)) [
        | inl e ↦ rw (e, e)
        | inr e ↦
            rw (e, e)
              (ap
                (λ n. record svg {
                  drawing = line N css (read_values N number svg.values) svg.color;
                  draws = n;
                })
                (omega arith))
      ]

  resparked-resparked :
      (css : String → String) (a b : ℕ) (svg : Svg (Spark N))
      → resparked css a (resparked css b svg) ≡ resparked css (b + a) svg
  resparked-resparked css a b svg =
      elim (Bool-cases (ltb (length (read_values N number svg.values)) 1)) [
        | inl e ↦ rw (e, e)
        | inr e ↦
            rw (e, e)
              (ap
                (λ n. record svg {
                  drawing = some (spark N css (read_values N number svg.values) svg.color);
                  draws = n;
                })
                (omega arith))
      ]

  map-map_both {ℓ} :
      {A : Type ℓ} (f g h : A → A) (xs : List A)
      → ((x : A) → f (g x) ≡ h x)
      → map f (map g xs) ≡ map h xs
  map-map_both f g h [] e = refl
  map-map_both f g h (x ∷ xs) e = ap₂ (λ y ys. y ∷ ys) (e x) (map-map_both f g h xs e)

  map-same {ℓ} :
      {A : Type ℓ} (f g : A → A) (xs : List A) → ((x : A) → f x ≡ g x) → map f xs ≡ map g xs
  map-same f g [] e = refl
  map-same f g (x ∷ xs) e = ap₂ (λ y ys. y ∷ ys) (e x) (map-same f g xs e)

  iterate-draws :
      (m : ℕ) (css : String → String) (doc : Document N)
      → ((iterate (suc m) (init N number css) doc).charts ≡ map (redrawn css (suc m)) doc.charts)
        × ((iterate (suc m) (init N number css) doc).sparks
            ≡ map (resparked css (suc m)) doc.sparks)
  unfolding iterate init
  iterate-draws zero css doc = (
    map-same (draw_chart N number css) (redrawn css 1) doc.charts (draw_chart-redrawn css),
    map-same (draw_sparkline N number css) (resparked css 1) doc.sparks
        (draw_sparkline-resparked css),
  )
  iterate-draws (suc m) css doc =
      let (c, s) = iterate-draws m css (init N number css doc) in
      (
        c
            ∙ map-map_both (redrawn css (suc m)) (draw_chart N number css)
                (redrawn css (suc (suc m))) doc.charts
                (λ x.
                  ap (redrawn css (suc m)) (draw_chart-redrawn css x)
                  ∙ redrawn-redrawn css (suc m) 1 x
                  ∙ ap (λ n. redrawn css n x) (omega arith)),
        s
            ∙ map-map_both (resparked css (suc m)) (draw_sparkline N number css)
                (resparked css (suc (suc m))) doc.sparks
                (λ x.
                  ap (resparked css (suc m)) (draw_sparkline-resparked css x)
                  ∙ resparked-resparked css (suc m) 1 x
                  ∙ ap (λ n. resparked css n x) (omega arith)),
      )

  -- A defect: on a page without listeners, `n` changes of the theme after the first `init` leave
  -- 2 ^ n of them, and the next change draws each chart with two numbers or more, and each sparkline
  -- with one or more, 2 ^ n times. What then stands in it is the drawing with the new theme; the
  -- others are left alone.
  pub theme_event-draws :
      (css : String → String) (es : List (String → String)) (next : String → String)
      (doc : Document N)
      → doc.listeners ≡ 0
      → ((theme_events N number es (init N number css doc)).listeners ≡ 2 ^ length es)
        × ((theme_event N number next (theme_events N number es (init N number css doc))).charts
            ≡ map
                (redrawn next (2 ^ length es))
                (theme_events N number es (init N number css doc)).charts)
        × ((theme_event N number next (theme_events N number es (init N number css doc))).sparks
            ≡ map
                (resparked next (2 ^ length es))
                (theme_events N number es (init N number css doc)).sparks)
  unfolding theme_event
  theme_event-draws css es next doc h =
      let before = theme_events N number es (init N number css doc) in
      let count : before.listeners ≡ 2 ^ length es =
        theme_events-listeners N number es (init N number css doc)
        ∙ ap (λ n. n * 2 ^ length es) (init-listeners N number css doc ∙ ap suc h)
        ∙ omega arith in
      let one_more : 2 ^ length es ≡ suc (2 ^ length es - 1) = power_above (length es) in
      let drawn = iterate-draws (2 ^ length es - 1) next before in
      let at : before.listeners ≡ suc (2 ^ length es - 1) = count ∙ one_more in
      (
        count,
        ap (λ n. (iterate n (init N number next) before).charts) at
            ∙ drawn.0
            ∙ ap (λ n. map (redrawn next n) before.charts) (sym one_more),
        ap (λ n. (iterate n (init N number next) before).sparks) at
            ∙ drawn.1
            ∙ ap (λ n. map (resparked next n) before.sparks) (sym one_more),
      )
