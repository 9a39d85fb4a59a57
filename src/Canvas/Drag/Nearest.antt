-- ===== src/Canvas/Drag/Nearest.antt =====
-- The slot that a dragged card takes.
use adivento.Base.{
  ℕ, zero, suc, ◌+◌, ◌≤◌, ◌<◌, String, true, false, not, Option, none, some, List, [], ◌∷◌, map,
  filter, length, length-map, insert_at, index_of, get_elem?, count, includes, All, ◌===◌,
  string_eq, nat_eq, ===_iff, ===_refl, ◌≡◌, refl, ap, sym, ◌∙◌, arith, ◌⊎◌, inl, inr, Bool-cases,
  subst,
}
use adivento.Base.Counts.{includes-filter}
use adivento.Base.Lists.{suc_index}
use adivento.Number.{Number, Le, IsIeee}
use adivento.Canvas.Drag.{
  stands_at, reorder, Drag, scan, distances, nearest_slot, start_home, move_from, move,
}

module _ (N : Number) (ieee : IsIeee N) where
  open N use {Num, lt, le, infinity}

  lt-Le : (a b : Num) → lt a b ≡ true → Le N a b
  lt-Le a b h = ((ieee.lt_iff a b).0 h).0

  lt-false : (a b : Num) → N.is_nan a ≡ false → N.is_nan b ≡ false → lt a b ≡ false → Le N b a
  lt-false a b ha hb h = elim (Bool-cases (le b a)) [
    | inl e ↦ e
    | inr e ↦ elim (ieee.le_total a b ha hb) [
      | inl l ↦ absurd (ground (arith, (ieee.lt_iff a b).1 (l, e)))
      | inr l ↦ l
    ]
  ]

  -- A distance that the loop can take: it is below `Infinity`.
  abbrev pub IsFinite : Num → Type 0
  IsFinite d = lt d infinity ≡ true

  IsFinite-nan : (d : Num) → IsFinite d → N.is_nan d ≡ false
  IsFinite-nan d h = (ieee.not_nan d infinity (lt-Le d infinity h)).0

  scan-closer :
      (best : Num) (near i : ℕ) (d : Num) (ds : List Num)
      → lt d best ≡ true
      → scan N best near i (d ∷ ds) ≡ scan N d i (suc i) ds
  unfolding scan
  scan-closer best near i d ds e = rw e refl

  scan-farther :
      (best : Num) (near i : ℕ) (d : Num) (ds : List Num)
      → lt d best ≡ false
      → scan N best near i (d ∷ ds) ≡ scan N best near (suc i) ds
  unfolding scan
  scan-farther best near i d ds e = rw e refl

  -- What the loop returns is the least of what it saw.
  scan-least :
      (best : Num) (near i : ℕ) (ds : List Num)
      → N.is_nan best ≡ false
      → All IsFinite ds
      → Le N (scan N best near i ds).0 best × All (Le N (scan N best near i ds).0) ds
  unfolding scan
  scan-least best near i [] hb h = (ieee.le_refl best hb, tt)
  scan-least best near i (d ∷ ds) hb h = elim (Bool-cases (lt d best)) [
    | inl e ↦
        let r = scan-least d i (suc i) ds (IsFinite-nan d h.0) h.1 in
        let below = ieee.le_trans (scan N d i (suc i) ds).0 d best r.0 (lt-Le d best e) in
        subst (λ p. Le N p.0 best × All (Le N p.0) (d ∷ ds)) (sym (scan-closer best near i d ds e))
          (below, r)
    | inr e ↦
        let r = scan-least best near (suc i) ds hb h.1 in
        let below =
          ieee.le_trans (scan N best near (suc i) ds).0 best d r.0
            (lt-false d best (IsFinite-nan d h.0) hb e) in
        subst (λ p. Le N p.0 best × All (Le N p.0) (d ∷ ds)) (sym (scan-farther best near i d ds e))
          (r.0, (below, r.1))
  ]

  -- The index that the loop returns is that of the distance it returns, unless it kept its start.
  scan-index :
      (best : Num) (near i : ℕ) (ds : List Num)
      → (scan N best near i ds ≡ (best, near))
        ⊎ ((k : ℕ) × ((scan N best near i ds).1 ≡ i + k)
            × (get_elem? ds k ≡ some (scan N best near i ds).0))
  unfolding scan
  scan-index best near i [] = inl refl
  scan-index best near i (d ∷ ds) = elim (Bool-cases (lt d best)) [
    | inl e ↦ elim (scan-index d i (suc i) ds) [
      | inl r ↦ inr (
        0,
        rw (scan-closer best near i d ds e) (ap (λ p. p.1) r ∙ omega arith),
        rw (scan-closer best near i d ds e) (ap (λ p. some p.0) (sym r)),
      )
      | inr (k, a, b) ↦ inr (
        suc k,
        rw (scan-closer best near i d ds e) (a ∙ omega arith),
        rw (scan-closer best near i d ds e) b,
      )
    ]
    | inr e ↦ elim (scan-index best near (suc i) ds) [
      | inl r ↦ inl (rw (scan-farther best near i d ds e) r)
      | inr (k, a, b) ↦ inr (
        suc k,
        rw (scan-farther best near i d ds e) (a ∙ omega arith),
        rw (scan-farther best near i d ds e) b,
      )
    ]
  ]

  -- Over finite distances, one at least, the loop finds the index of a least one.
  scan-nearest :
      (d : Num) (ds : List Num)
      → All IsFinite (d ∷ ds)
      → (best : Num) × (get_elem? (d ∷ ds) (scan N infinity 0 0 (d ∷ ds)).1 ≡ some best)
        × All (Le N best) (d ∷ ds)
  scan-nearest d ds h =
      let least =
        scan-least infinity 0 0 (d ∷ ds) (ieee.not_nan d infinity (lt-Le d infinity h.0)).1 h in
      elim (scan-index infinity 0 0 (d ∷ ds)) [
        | inl e ↦
            absurd
              (ground (arith, (ieee.lt_iff d infinity).0 h.0, subst (λ p. Le N p.0 d) e least.1.0))
        | inr (k, a, b) ↦ (
          (scan N infinity 0 0 (d ∷ ds)).0,
          subst (λ j. get_elem? (d ∷ ds) j ≡ some (scan N infinity 0 0 (d ∷ ds)).0)
              (sym (a ∙ omega arith)) b,
          least.1,
        )
      ]

not-head : (x a : String) (xs : List String) → includes (x ∷ xs) a ≡ false → (x === a) ≡ false
not-head x a xs h = ground arith

not-tail : (x a : String) (xs : List String) → includes (x ∷ xs) a ≡ false → includes xs a ≡ false
not-tail x a xs h = ground arith

index_of-insert_at :
    (i : ℕ) (a : String) (xs : List String)
    → includes xs a ≡ false
    → i ≤ length xs
    → index_of (insert_at i a xs) a ≡ some i
index_of-insert_at zero a xs h l = rw (===_refl a) refl
index_of-insert_at (suc i) a [] h l = absurd (omega arith)
index_of-insert_at (suc i) a (x ∷ xs) h l =
    rw (not-head x a xs h)
      (ap suc_index (index_of-insert_at i a xs (not-tail x a xs h) (omega arith)))

get_elem?-length :
    {A : Type 0} (i : ℕ) (a : A) (xs : List A) → get_elem? xs i ≡ some a → i < length xs
get_elem?-length i a [] h = absurd cc
get_elem?-length zero a (x ∷ xs) h = omega arith
get_elem?-length (suc i) a (x ∷ xs) h = omega (arith, get_elem?-length i a xs h)

length-others :
    (id : String) (xs : List String)
    → length (filter (λ k. not (k === id)) xs) + count id xs ≡ length xs
length-others id [] = omega arith
length-others id (x ∷ xs) = ground (arith, length-others id xs)

stands_at-true : (o : Option ℕ) (n : ℕ) → stands_at o n ≡ true → o ≡ some n
unfolding stands_at
stands_at-true none n h = absurd cc
stands_at-true (some i) n h = ap some ((===_iff i n).0 h)

index_of-reorder :
    (id : String) (order : List String) (near : ℕ) (live : List String)
    → count id order ≡ 1
    → near < length order
    → index_of (reorder id order near live) id ≡ some near
unfolding reorder
index_of-reorder id order near live once h = elim (Bool-cases (stands_at (index_of live id) near)) [
  | inl e ↦ rw e (stands_at-true (index_of live id) near e)
  | inr e ↦
      let others = filter (λ k. not (k === id)) order in
      rw e (
        index_of-insert_at near id others
          (rw (includes-filter (λ k. not (k === id)) id order) (ground (arith, ===_refl id)))
          (omega (arith, length-others id order)))
]

module _ (N : Number) (ieee : IsIeee N) where
  open N use {Num, add, sub}

  nearest_slot-least :
      (homes : List Num) (cur : Num)
      → 1 ≤ length homes
      → All (IsFinite N ieee) (distances N homes cur)
      → (best : Num) × (get_elem? (distances N homes cur) (nearest_slot N homes cur) ≡ some best)
        × All (Le N best) (distances N homes cur)
  unfolding nearest_slot distances
  nearest_slot-least [] cur l h = absurd (omega arith)
  nearest_slot-least (x ∷ xs) cur l h =
      scan-nearest N ieee (N.abs (sub x cur)) (map (λ y. N.abs (sub y cur)) xs) h

  -- A move over slots at finite distances, one for each artboard of the order, puts the dragged
  -- artboard at the index of a slot whose distance from the card is least.
  pub move-nearest :
      (x₀ x : Num) (d : Drag N)
      → start_home N d ≡ some x₀
      → count d.id d.order ≡ 1
      → length d.homes ≡ length d.order
      → All (IsFinite N ieee) (distances N d.homes (add x₀ (sub x d.start_x)))
      → (near : ℕ) × (best : Num) × (index_of (move N x d).live_order d.id ≡ some near)
        × (get_elem? (distances N d.homes (add x₀ (sub x d.start_x))) near ≡ some best)
        × All (Le N best) (distances N d.homes (add x₀ (sub x d.start_x)))
  unfolding move move_from distances
  move-nearest x₀ x d e once same h =
      let cur = add x₀ (sub x d.start_x) in
      let r =
        nearest_slot-least d.homes cur (omega (arith, same, once, length-others d.id d.order)) h in
      let inside =
        get_elem?-length (nearest_slot N d.homes cur) r.0 (distances N d.homes cur) r.1 in
      (
        nearest_slot N d.homes cur,
        r.0,
        rw e (
            index_of-reorder d.id d.order (nearest_slot N d.homes cur) d.live_order once
              (omega (arith, inside, same, length-map (λ y. N.abs (sub y cur)) d.homes))),
        r.1,
        r.2,
      )
