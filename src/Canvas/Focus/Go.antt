-- ===== src/Canvas/Focus/Go.antt =====
-- The arrows left and right.
use native.Mathlib.Nat.{add-mod_right, mod-eq_of_lt, mod-lt}
use adivento.Base.Lists.{suc_index}
use adivento.Base.{
  Bool-cases, ℕ, zero, suc, ◌+◌, ◌-◌, ◌%◌, ◌≤◌, ◌<◌, String, true, some, List, [], ◌∷◌, length,
  get_elem?, index_of, includes, count, ◌===◌, string_eq, ===_iff, ===_refl, truthy, leb, ◌≡◌, refl,
  ap, ◌∙◌, arith, inl, inr,
}
use adivento.Canvas.Focus.{Overlay, Step, forward, backward, step_index, focus_on, go, refocus}

pub mod-wrapped : (a n : ℕ) → a < n → (a + n) % n ≡ a
mod-wrapped a n h = add-mod_right a n ∙ mod-eq_of_lt h

pub mod-once : (a b n : ℕ) → a ≡ b + n → b < n → a % n ≡ b
mod-once a b n e h = ap (λ k. k % n) e ∙ mod-wrapped b n h

mod-twice : (a b n : ℕ) → a ≡ b + n + n → b < n → a % n ≡ b
mod-twice a b n e h = ap (λ k. k % n) e ∙ add-mod_right (b + n) n ∙ mod-wrapped b n h

pub index_of-includes :
    (a : String) (xs : List String)
    → includes xs a ≡ true
    → (i : ℕ) × (index_of xs a ≡ some i) × (get_elem? xs i ≡ some a) × (i < length xs)
index_of-includes a [] h = absurd (ground arith)
index_of-includes a (x ∷ xs) h = elim (Bool-cases (x === a)) [
  | inl e ↦ (0, rw e refl, ap some ((===_iff x a).0 e), omega arith)
  | inr e ↦
      let r = index_of-includes a xs (ground arith) in
      (suc r.0, rw e (ap suc_index r.1), r.2, omega (arith, r.3))
]

pub get_elem?-lt :
    (i : ℕ) (xs : List String)
    → i < length xs
    → (a : String) × (get_elem? xs i ≡ some a) × (includes xs a ≡ true)
get_elem?-lt i [] h = absurd (omega arith)
get_elem?-lt zero (x ∷ xs) h = (x, refl, rw (===_refl x) refl)
get_elem?-lt (suc i) (x ∷ xs) h =
    let r = get_elem?-lt i xs (omega arith) in (r.0, r.1, rw r.2 (ground arith))

pub count-get_elem? :
    (i : ℕ) (a : String) (xs : List String) → get_elem? xs i ≡ some a → 1 ≤ count a xs
count-get_elem? i a [] h = cc
count-get_elem? zero a (x ∷ xs) h = let e : x ≡ a = cc in rw ((===_iff x a).1 e) (omega arith)
count-get_elem? (suc i) a (x ∷ xs) h = ground (arith, count-get_elem? i a xs h)

index_of-get_elem? :
    (i : ℕ) (a : String) (xs : List String)
    → count a xs ≤ 1
    → get_elem? xs i ≡ some a
    → index_of xs a ≡ some i
index_of-get_elem? i a [] c h = cc
index_of-get_elem? zero a (x ∷ xs) c h = let e : x ≡ a = cc in rw ((===_iff x a).1 e) refl
index_of-get_elem? (suc i) a (x ∷ xs) c h = elim (Bool-cases (x === a)) [
  | inl e ↦ absurd (ground (arith, count-get_elem? i a xs h))
  | inr e ↦ rw e (ap suc_index (index_of-get_elem? i a xs (ground arith) h))
]

abbrev pub opposite : Step → Step
opposite forward = backward
opposite backward = forward

step_index-lt : (d : Step) (i n : ℕ) → i < n → step_index d (some i) n < n
unfolding step_index
step_index-lt forward i n h = mod-lt (i + 1 + n) (omega arith)
step_index-lt backward i n h = mod-lt (i + n - 1) (omega arith)

step_index-opposite :
    (d : Step) (i n : ℕ) → i < n → step_index (opposite d) (some (step_index d (some i) n)) n ≡ i
unfolding step_index
step_index-opposite forward i n h = elim (Bool-cases (leb (i + 2) n)) [
  | inl e ↦
      rw (mod-once (i + 1 + n) (i + 1) n refl (ground arith))
        (mod-once (i + 1 + n - 1) i n (omega arith) h)
  | inr e ↦
      rw (mod-twice (i + 1 + n) 0 n (ground arith) (omega arith))
        (ap (λ k. k % n) (ground arith) ∙ mod-eq_of_lt h)
]
step_index-opposite backward zero n h =
    rw (mod-eq_of_lt {n = 0 + n - 1} {m = n} (omega arith))
      (mod-twice (0 + n - 1 + 1 + n) 0 n (omega arith) h)
step_index-opposite backward (suc i) n h =
    rw (mod-once (suc i + n - 1) i n (omega arith) (omega arith))
      (mod-once (i + 1 + n) (suc i) n (omega arith) h)

pub focus_on-some : (sid a : String) → truthy a ≡ true → focus_on sid (some a) ≡ some (sid, a)
unfolding focus_on
focus_on-some sid a h = rw h refl

-- With the ids of the section distinct and not empty, an arrow focuses an artboard of the section,
-- and the opposite arrow then leads back.
pub go-go :
    (d : Step) (v : Overlay)
    → ((k : String) → count k (v.slot_ids v.section_id) ≤ 1)
    → ((k : String) → includes (v.slot_ids v.section_id) k ≡ true → truthy k ≡ true)
    → includes (v.slot_ids v.section_id) v.aid ≡ true
    → (w : String) × (go d v ≡ some (v.section_id, w))
      × (includes (v.slot_ids v.section_id) w ≡ true)
      × (go (opposite d) (refocus v.section_id w v) ≡ some (v.section_id, v.aid))
unfolding go refocus
go-go d v once named has =
    let peers = v.slot_ids v.section_id in
    let at = index_of-includes v.aid peers has in
    let next =
      get_elem?-lt (step_index d (some at.0) (length peers)) peers
        (step_index-lt d at.0 (length peers) at.3) in
    let there =
      index_of-get_elem? (step_index d (some at.0) (length peers)) next.0 peers (once next.0)
        next.1 in
    (
      next.0,
      rw (at.1, next.1) (focus_on-some v.section_id next.0 (named next.0 next.2)),
      next.2,
      rw (there, step_index-opposite d at.0 (length peers) at.3, at.2)
          (focus_on-some v.section_id v.aid (named v.aid has)),
    )
