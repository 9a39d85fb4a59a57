-- ===== src/Number.antt =====
-- The number type of JavaScript, which is not part of the repository: an interface of the operations
-- that the source uses, and of the IEEE 754 facts about them that the theorems rest on.
pub mod Order
pub mod Exact
use adivento.Base.{
  ℕ, suc, ◌+◌, ◌-◌, ◌*◌, ◌≤◌, ◌<◌, Bool, true, false, ◌≡◌, ◌⊎◌, ◌↔◌, leb, if◌then◌else◌,
}

-- `of n` is the literal n, `lt` is `<`, `le` is `<=`, `round` and `abs` are `Math.round` and
-- `Math.abs`.
pub record Number : Type 1 where
  pub Num : Type 0
  pub of : ℕ → Num
  pub sub : Num → Num → Num
  pub mul : Num → Num → Num
  pub div : Num → Num → Num
  pub add : Num → Num → Num
  pub abs : Num → Num
  pub infinity : Num
  pub lt : Num → Num → Bool
  pub le : Num → Num → Bool
  pub is_nan : Num → Bool
  pub round : Num → Num

-- `Number.MAX_SAFE_INTEGER`
abbrev pub safe : ℕ
safe = 9007199254740991

module _ (N : Number) where
  open N use {Num, of, le}

  abbrev pub Le : Num → Num → Type 0
  Le a b = le a b ≡ true

  abbrev pub Between : ℕ → ℕ → Num → Type 0
  Between lo hi a = Le (of lo) a × Le a (of hi)

  -- `Math.min(a, b)` and `Math.max(a, b)` at an `a` that is not NaN
  abbrev pub min : Num → Num → Num
  min a b = if le a b then a else b

  abbrev pub max : Num → Num → Num
  max a b = if le b a then a else b

-- Comparisons with NaN are false, and comparison is an order on the other numbers. Integers are
-- exact while they are safe; rounding keeps the order; 0 / 0 is NaN.
pub record IsIeee (N : Number) : Type 0 where
  pub le_refl : (a : N.Num) → N.is_nan a ≡ false → Le N a a
  pub le_total : (a b : N.Num) → N.is_nan a ≡ false → N.is_nan b ≡ false → Le N a b ⊎ Le N b a
  pub le_trans : (a b c : N.Num) → Le N a b → Le N b c → Le N a c
  pub lt_iff : (a b : N.Num) → (N.lt a b ≡ true) ↔ (Le N a b × (N.le b a ≡ false))
  pub not_nan : (a b : N.Num) → Le N a b → (N.is_nan a ≡ false) × (N.is_nan b ≡ false)
  pub of_not_nan : (n : ℕ) → N.is_nan (N.of n) ≡ false
  pub le_of : (m n : ℕ) → n ≤ safe → N.le (N.of m) (N.of n) ≡ leb m n
  pub sub_of : (m n : ℕ) → n ≤ m → m ≤ safe → N.sub (N.of m) (N.of n) ≡ N.of (m - n)
  pub mul_of : (m n : ℕ) → m * n ≤ safe → N.mul (N.of m) (N.of n) ≡ N.of (m * n)
  pub div_of : (m n : ℕ) → 0 < n → m * n ≤ safe → N.div (N.of (m * n)) (N.of n) ≡ N.of m
  pub zero_div_zero : N.is_nan (N.div (N.of 0) (N.of 0)) ≡ true
  pub nan_mul : (a b : N.Num) → N.is_nan a ≡ true → N.is_nan (N.mul a b) ≡ true
  pub round_of : (n : ℕ) → n ≤ safe → N.round (N.of n) ≡ N.of n
  pub round_mono : (a b : N.Num) → Le N a b → Le N (N.round a) (N.round b)
  pub sub_mono :
      (n : ℕ) (a b : N.Num)
      → n ≤ safe
      → Between N 0 safe a
      → Between N 0 safe b
      → Le N a b
      → Le N (N.sub (N.of n) b) (N.sub (N.of n) a)
  pub mul_mono :
      (n : ℕ) (a b : N.Num)
      → n ≤ safe
      → Between N 0 safe a
      → Between N 0 safe b
      → Le N a b
      → Le N (N.mul a (N.of n)) (N.mul b (N.of n))
  pub div_mono :
      (n : ℕ) (a b : N.Num)
      → 0 < n
      → n ≤ safe
      → Between N 0 safe a
      → Between N 0 safe b
      → Le N a b
      → Le N (N.div a (N.of n)) (N.div b (N.of n))
