-- ===== src/Canvas/Focus/Wrap.antt =====
-- The places of the sections that the loop of the arrows up and down looks at.
use native.Mathlib.Nat.{mod-eq_of_lt}
use adivento.Base.{
  ℕ, zero, suc, ◌+◌, ◌-◌, ◌%◌, ◌≤◌, ◌<◌, ◌≢◌, false, some, List, [], ◌∷◌, ltb, if◌then◌else◌,
  string_eq, leb, le→leb, ◌≡◌, ap, ◌∙◌, arith, inl, inr, Bool-cases,
}
use adivento.Canvas.Focus.{Step, forward, backward, wrap}
use adivento.Canvas.Focus.Go.{mod-wrapped, mod-once}

leb-false : (a b : ℕ) → b < a → leb a b ≡ false
leb-false a b h = ground arith

-- The rounds of the loop reach every other section.
pub wrap_onto :
    (d : Step) (k j n : ℕ)
    → k < n
    → j < n
    → j ≢ k
    → (i : ℕ) × (1 ≤ i) × (i < n) × (wrap d (some k) i n ≡ j)
unfolding wrap
wrap_onto forward k j n hk hj ne = elim (Bool-cases (leb k j)) [
  | inl e ↦ (
    j - k,
    ground arith,
    omega arith,
    rw (mod-eq_of_lt {n = k + (j - k)} {m = n} (ground arith))
        (ap (λ a. (a + n) % n) (ground arith) ∙ mod-wrapped j n hj),
  )
  | inr e ↦ (
    j + n - k,
    ground arith,
    ground arith,
    rw (mod-once (k + (j + n - k)) j n (omega arith) hj) (mod-wrapped j n hj),
  )
]
wrap_onto backward k j n hk hj ne = elim (Bool-cases (leb j k)) [
  | inl e ↦ (
    k - j,
    ground arith,
    omega arith,
    rw (le→leb (k - j) k (omega arith)) (
        ap (λ a. (a % n + n) % n) {x = k - (k - j)} {y = j} (ground arith)
        ∙ rw (mod-eq_of_lt {n = j} {m = n} hj) (mod-wrapped j n hj)),
  )
  | inr e ↦ (
    k + n - j,
    ground arith,
    ground arith,
    rw (leb-false (k + n - j) k (ground arith)) (
        rw (mod-eq_of_lt {n = k + n - j - k} {m = n} (ground arith))
          (ap (λ a. a % n) (omega arith) ∙ mod-eq_of_lt hj)),
  )
]

-- The place of the section that is `i` steps away, round the end of the order.
abbrev pub away : Step → ℕ → ℕ → ℕ → ℕ
away forward k i n = if ltb (k + i) n then k + i else k + i - n
away backward k i n = if leb i k then k - i else k + n - i

pub wrap-away : (d : Step) (k i n : ℕ) → k < n → i < n → wrap d (some k) i n ≡ away d k i n
unfolding wrap
wrap-away forward k i n hk hi = elim (Bool-cases (ltb (k + i) n)) [
  | inl e ↦
      rw (mod-eq_of_lt {n = k + i} {m = n} (ground arith), e) (mod-wrapped (k + i) n (ground arith))
  | inr e ↦
      rw (mod-once (k + i) (k + i - n) n (ground arith) (omega arith), e)
        (mod-wrapped (k + i - n) n (omega arith))
]
wrap-away backward k i n hk hi = elim (Bool-cases (leb i k)) [
  | inl e ↦
      rw (mod-eq_of_lt {n = k - i} {m = n} (omega arith), e) (mod-wrapped (k - i) n (omega arith))
  | inr e ↦
      rw (mod-eq_of_lt {n = i - k} {m = n} (omega arith), e)
        (mod-eq_of_lt {n = n - (i - k)} {m = n} (ground arith) ∙ ground arith)
]

-- The places at 1, …, i steps.
abbrev pub places : Step → ℕ → ℕ → ℕ → List ℕ
places d k zero n = []
places d k (suc i) n = away d k (suc i) n ∷ places d k i n
