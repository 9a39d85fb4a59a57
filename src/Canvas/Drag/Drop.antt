-- ===== src/Canvas/Drag/Drop.antt =====
-- What a drag and a drop make of the order of a section.
use adivento.Base.{
  ℕ, zero, suc, ◌+◌, String, Bool, false, Option, none, some, List, [], ◌∷◌, filter, index_of,
  insert_at, count, ◌===◌, string_eq, ===_iff, ===_refl, if◌then◌else◌, ◌≡◌, refl, sym, ◌∙◌, arith,
  inl, inr, Bool-cases, subst,
}
use adivento.Base.Counts.{count-filter, includes-count}
use adivento.Number.{Number}
use adivento.Canvas.Order.{Element, Section, slot_ids, section_order, on_reorder}
use adivento.Canvas.Order.Edits.{slot_ids-on_reorder, other_than}
use adivento.Canvas.Drag.{
  stands_at, reorder, Drag, grab, start_home, move_from, move, moves, drop, nearest_slot,
}

count-insert_at :
    (i : ℕ) (a k : String) (xs : List String)
    → count k (insert_at i a xs) ≡ (if a === k then 1 else 0) + count k xs
count-insert_at zero a k xs = ground arith
count-insert_at (suc i) a k [] = ground arith
count-insert_at (suc i) a k (x ∷ xs) = ground (arith, count-insert_at i a k xs)

filter-insert_at :
    (p : String → Bool) (i : ℕ) (a : String) (xs : List String)
    → p a ≡ false
    → filter p (insert_at i a xs) ≡ filter p xs
filter-insert_at p zero a xs h = ground arith
filter-insert_at p (suc i) a [] h = ground arith
filter-insert_at p (suc i) a (x ∷ xs) h = ground (arith, filter-insert_at p i a xs h)

filter_idem : (p : String → Bool) (xs : List String) → filter p (filter p xs) ≡ filter p xs
filter_idem p [] = refl
filter_idem p (x ∷ xs) = ground (arith, filter_idem p xs)

-- The same artboards, and those other than the dragged one in the same order.
abbrev pub Keeps : String → List String → List String → Type 0
Keeps id order live =
    (filter (other_than id) live ≡ filter (other_than id) order)
    × ((k : String) → count k live ≡ count k order)

Keeps-reorder :
    (id : String) (order : List String) (near : ℕ) (live : List String)
    → count id order ≡ 1
    → Keeps id order live
    → Keeps id order (reorder id order near live)
unfolding reorder
Keeps-reorder id order near live once h = elim (Bool-cases (stands_at (index_of live id) near)) [
  | inl e ↦ rw e h
  | inr e ↦ rw e (
    filter-insert_at (other_than id) near id (filter (other_than id) order) (rw (===_refl id) refl)
        ∙ filter_idem (other_than id) order,
    λ k.
        count-insert_at near id k (filter (other_than id) order)
        ∙ rw (count-filter (other_than id) k order) (ground (arith, ===_iff id k, ===_iff k id)),
  )
]

module _ (N : Number) where
  open N use {Num}

  abbrev Kept : String → List String → Drag N → Type 0
  Kept id order d = (d.id ≡ id) × (d.order ≡ order) × Keeps id order d.live_order

  Kept-move_from :
      (id : String) (order : List String) (o : Option Num) (x : Num) (d : Drag N)
      → count id order ≡ 1
      → Kept id order d
      → Kept id order (move_from N o x d)
  unfolding move_from
  Kept-move_from id order none x d once h = h
  Kept-move_from id order (some x₀) x d once (i, o, h) =
      let near = nearest_slot N d.homes (N.add x₀ (N.sub x d.start_x)) in
      (
        i,
        o,
        subst (λ i'. Keeps id order (reorder i' d.order near d.live_order)) (sym i)
            (subst (λ o'. Keeps id order (reorder id o' near d.live_order)) (sym o)
              (Keeps-reorder id order near d.live_order once h)),
      )

  Kept-moves :
      (id : String) (order : List String) (xs : List Num) (d : Drag N)
      → count id order ≡ 1
      → Kept id order d
      → Kept id order (moves N xs d)
  unfolding moves move
  Kept-moves id order [] d once h = h
  Kept-moves id order (x ∷ xs) d once h =
      Kept-moves id order xs (move N x d) once (Kept-move_from id order (start_home N d) x d once h)

  drop-some : (d : Drag N) (next : List String) → drop N d ≡ some next → d.live_order ≡ next
  unfolding drop
  drop-some d next h = ground arith

  -- An artboard that stands once in the order of its section is dragged anywhere and dropped. If the
  -- drop reorders, then to the same artboards with the others in their order, and the section then
  -- shows that order.
  pub slot_ids-drop :
      (id : String) (sec : Section) (children : List Element) (homes : List Num) (x₀ : Num)
      (xs : List Num) (next : List String)
      → count id (section_order sec children) ≡ 1
      → drop N (moves N xs (grab N id (section_order sec children) homes x₀)) ≡ some next
      → Keeps id (section_order sec children) next
        × (slot_ids (on_reorder next sec) children ≡ next)
  unfolding grab
  slot_ids-drop id sec children homes x₀ xs next once h =
      let order = section_order sec children in
      let d = moves N xs (grab N id order homes x₀) in
      let kept =
        Kept-moves id order xs (grab N id order homes x₀) once (refl, refl, (refl, λ k. refl)) in
      let keeps = subst (Keeps id order) (drop-some d next h) kept.2 in
      (
        keeps,
        slot_ids-on_reorder next sec children
            (λ k. ground (arith, keeps.1 k, includes-count k next, includes-count k order)),
      )
