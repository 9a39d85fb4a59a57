-- ===== src/Canvas/Focus/Sections.antt =====
-- The arrows up and down.
use adivento.Base.{
  ℕ, zero, suc, ◌+◌, ◌-◌, ◌≤◌, ◌<◌, ◌≢◌, String, true, false, Option, none, some, List, All,
  index_of, Bool, length, get_elem?, includes, string_eq, truthy, leb, ◌≡◌, refl, ap, ◌∙◌, sym,
  arith, inl, inr, Bool-cases, Option-cases, subst,
}
use adivento.Base.Counts.{includes-count}
use adivento.Canvas.Focus.{
  Overlay, Step, wrap, focus_on, first_slot, candidate, go_loop, go_section,
}
use adivento.Canvas.Focus.Wrap.{wrap_onto, away, wrap-away, places}
use adivento.Canvas.Focus.Go.{index_of-includes, count-get_elem?, focus_on-some}

-- A slot that is the first of a section in the order, with an id that is not empty.
abbrev pub IsFirst : Overlay → String × String → Type 0
IsFirst v p =
    (includes v.section_order p.0 ≡ true)
    × (get_elem? (v.slot_ids p.0) 0 ≡ some p.1)
    × (truthy p.1 ≡ true)

none-some : {A : Type 0} {a : A} → none ≢ some a
none-some h = cc

focus_on-inv :
    (sid : String) (o : Option String) (q : String × String)
    → focus_on sid o ≡ some q
    → (sid ≡ q.0) × (o ≡ some q.1) × (truthy q.1 ≡ true)
unfolding focus_on
focus_on-inv sid none q h = cc
focus_on-inv sid (some a) q h = ground (arith, focus_on-some sid a)

first_slot-inv :
    (o : Option String) (slots : String → List String) (q : String × String)
    → first_slot o slots ≡ some q
    → (o ≡ some q.0) × (get_elem? (slots q.0) 0 ≡ some q.1) × (truthy q.1 ≡ true)
unfolding first_slot
first_slot-inv none slots q h = cc
first_slot-inv (some ns) slots q h =
    let r = focus_on-inv ns (get_elem? (slots ns) 0) q h in
    (ap some r.0, subst (λ n. get_elem? (slots n) 0 ≡ some q.1) r.0 r.1, r.2)

includes-get_elem? :
    (i : ℕ) (a : String) (xs : List String) → get_elem? xs i ≡ some a → includes xs a ≡ true
includes-get_elem? i a xs h = (includes-count a xs).1 (count-get_elem? i a xs h)

module _ (d : Step) (k : Option ℕ) (order : List String) (slots : String → List String) where
  -- The first of the rounds from `i` on that finds a section with a slot is the one that decides.
  go_loop-reaches :
      (m i t : ℕ) (p : String × String)
      → i ≤ t
      → t < i + m
      → candidate d k order slots t ≡ some p
      → (q : String × String) × (s : ℕ) × (go_loop m i d k order slots ≡ some q)
        × (candidate d k order slots s ≡ some q)
        × (i ≤ s)
        × (s ≤ t)
        × ((j : ℕ) → i ≤ j → j < s → candidate d k order slots j ≡ none)
  unfolding go_loop
  go_loop-reaches zero i t p h l c = absurd (omega arith)
  go_loop-reaches (suc m) i t p h l c = elim (Option-cases (candidate d k order slots i)) [
    | inr r ↦ (r.0, i, rw r.1 refl, r.1, omega arith, h, λ j a b. absurd (omega arith))
    | inl e ↦
        let apart : i ≢ t =
          λ x. absurd (none-some (sym e ∙ ap (candidate d k order slots) x ∙ c)) in
        let later : suc i ≤ t = ground arith in
        let (q, s, g, cs, lo, hi, before) = go_loop-reaches m (suc i) t p later (omega arith) c in
        (
          q,
          s,
          rw e g,
          cs,
          omega arith,
          hi,
          λ j a b. elim (Bool-cases (leb (suc i) j)) [
            | inl above ↦ before j (ground arith) b
            | inr below ↦
                let same : i ≡ j = ground arith in
                subst (λ r. candidate d k order slots r ≡ none) same e
          ],
        )
  ]

-- An id that is there and not empty.
abbrev pub named : Option String → Bool
named none = false
named (some f) = truthy f

-- A section whose first slot can be focused.
abbrev pub opens : Option String → (String → List String) → Bool
opens none slots = false
opens (some ns) slots = named (get_elem? (slots ns) 0)

-- Whether one stands at this place of the order.
abbrev pub has_slot : Overlay → ℕ → Bool
has_slot v at = opens (get_elem? v.section_order at) v.slot_ids

focus_on-none : (sid : String) (o : Option String) → focus_on sid o ≡ none → named o ≡ false
unfolding focus_on
focus_on-none sid none h = refl
focus_on-none sid (some f) h = ground (arith, focus_on-some sid f)

first_slot-none :
    (o : Option String) (slots : String → List String)
    → first_slot o slots ≡ none
    → opens o slots ≡ false
unfolding first_slot
first_slot-none none slots h = refl
first_slot-none (some ns) slots h = focus_on-none ns (get_elem? (slots ns) 0) h

All-places :
    (d : Step) (v : Overlay) (k i n : ℕ)
    → ((j : ℕ) → 1 ≤ j → j < suc i → has_slot v (away d k j n) ≡ false)
    → All (λ at. has_slot v at ≡ false) (places d k i n)
All-places d v k zero n h = tt
All-places d v k (suc i) n h =
    (h (suc i) (omega arith) (omega arith), All-places d v k i n (λ j a b. h j a (omega arith)))

-- From a section in the order, if another section in the order has a first slot, the arrows up and
-- down focus the first slot of the section that is `suc i` steps before or after it, round the end of
-- the order but not as far as the section itself; no section at fewer steps has a first slot, so that
-- exactly the sections without slots are stepped past.
pub go_section-IsFirst :
    (d : Step) (v : Overlay) (ns f : String)
    → includes v.section_order v.section_id ≡ true
    → ns ≢ v.section_id
    → IsFirst v (ns, f)
    → (k : ℕ) × (i : ℕ) × (q : String × String) × (index_of v.section_order v.section_id ≡ some k)
      × (go_section d v ≡ some q)
      × IsFirst v q
      × (suc i < length v.section_order)
      × (get_elem? v.section_order (away d k (suc i) (length v.section_order)) ≡ some q.0)
      × All (λ at. has_slot v at ≡ false) (places d k i (length v.section_order))
unfolding go_section candidate
go_section-IsFirst d v ns f has ne first =
    let order = v.section_order in
    let n = length order in
    let (k, at, here, inside) = index_of-includes v.section_id order has in
    let there = index_of-includes ns order first.0 in
    let i = wrap_onto d k there.0 n inside there.3 (λ x. ne cc) in
    let (q, s, g, c, lo, hi, before) =
      go_loop-reaches d (some k) order v.slot_ids (n - 1) 1 i.0 (ns, f) i.1 (omega (arith, i.2))
        (rw (i.3, there.2, first.1) (focus_on-some ns f first.2)) in
    let short : s < n = omega (arith, hi, i.2) in
    let same : s ≡ suc (s - 1) = omega (arith, lo) in
    let found = first_slot-inv (get_elem? order (wrap d (some k) s n)) v.slot_ids q c in
    let placed = ap (get_elem? order) (sym (wrap-away d k s n inside short)) ∙ found.0 in
    (
      k,
      s - 1,
      q,
      at,
      rw at g,
      (includes-get_elem? (wrap d (some k) s n) q.0 order found.0, found.1, found.2),
      subst (λ r. r < n) same short,
      subst (λ r. get_elem? order (away d k r n) ≡ some q.0) same placed,
      All-places d v k (s - 1) n (λ j a b.
          let far : j < n = omega (arith, b, short) in
          first_slot-none (get_elem? order (away d k j n)) v.slot_ids (
            ap (λ r. first_slot (get_elem? order r) v.slot_ids) (sym (wrap-away d k j n inside far))
            ∙ before j a (omega (arith, b, lo)))),
    )
