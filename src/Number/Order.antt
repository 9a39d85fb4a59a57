-- ===== src/Number/Order.antt =====
-- Consequences of the IEEE facts for the expressions of the charts and bars.
use adivento.Base.{ℕ, ◌≤◌, ◌<◌, false, ◌≡◌, ◌⊎◌, inl, inr, arith, Bool-cases, ◌∙◌, subst, ap}
use adivento.Number.{Number, safe, Le, Between, min, max, IsIeee}

module _ (N : Number) (I : IsIeee N) where
  open N use {Num, of, sub, mul, div, le, is_nan}

  pub le_of_nat : (m n : ℕ) → m ≤ n → n ≤ safe → Le N (of m) (of n)
  le_of_nat m n h s = I.le_of m n s ∙ ground arith

  pub Between-widen :
      (hi hi' : ℕ) (a : Num) → hi ≤ hi' → hi' ≤ safe → Between N 0 hi a → Between N 0 hi' a
  Between-widen hi hi' a h s b = (b.0, I.le_trans a (of hi) (of hi') b.1 (le_of_nat hi hi' h s))

  pub min-le : (hi : ℕ) (a : Num) → hi ≤ safe → is_nan a ≡ false → Le N (min N (of hi) a) (of hi)
  min-le hi a s h = elim (Bool-cases (le (of hi) a)) [
    | inl e ↦ rw e (I.le_refl (of hi) (I.of_not_nan hi))
    | inr e ↦ rw e (other e (I.le_total (of hi) a (I.of_not_nan hi) h))
  ]
    where
      other : le (of hi) a ≡ false → Le N (of hi) a ⊎ Le N a (of hi) → Le N a (of hi)
      other e (inl k) = cc
      other e (inr k) = k

  max-le : (hi : ℕ) (x : Num) → hi ≤ safe → Le N x (of hi) → Between N 0 hi (max N (of 0) x)
  max-le hi x s h = elim (Bool-cases (le x (of 0))) [
    | inl e ↦ rw e (I.le_refl (of 0) (I.of_not_nan 0), le_of_nat 0 hi (omega arith) s)
    | inr e ↦ rw e (above e (I.le_total (of 0) x (I.of_not_nan 0) (I.not_nan x (of hi) h).0), h)
  ]
    where
      above : le x (of 0) ≡ false → Le N (of 0) x ⊎ Le N x (of 0) → Le N (of 0) x
      above e (inl k) = k
      above e (inr k) = cc

  -- `Math.max(0, Math.min(hi, a))` lies from 0 to `hi`.
  pub clamp-Between :
      (hi : ℕ) (a : Num)
      → hi ≤ safe
      → is_nan a ≡ false
      → Between N 0 hi (max N (of 0) (min N (of hi) a))
  clamp-Between hi a s h = max-le hi (min N (of hi) a) s (min-le hi a s h)

  pub div_self : (m : ℕ) → 0 < m → m ≤ safe → div (of m) (of m) ≡ of 1
  div_self m pos s =
      subst (λ k. div (of k) (of m) ≡ of 1) (omega arith) (I.div_of 1 m pos (omega arith))

  pub zero-div : (m : ℕ) → 0 < m → m ≤ safe → div (of 0) (of m) ≡ of 0
  zero-div m pos s =
      subst (λ k. div (of k) (of m) ≡ of 0) (omega arith) (I.div_of 0 m pos (omega arith))

  pub one-mul : (k : ℕ) → k ≤ safe → mul (of 1) (of k) ≡ of k
  one-mul k s = I.mul_of 1 k (omega arith) ∙ ap of (omega arith)

  pub zero-mul : (k : ℕ) → mul (of 0) (of k) ≡ of 0
  zero-mul k = I.mul_of 0 k (omega arith) ∙ ap of (omega arith)

  pub small : (k : ℕ) → k ≤ safe → Between N 0 safe (of k)
  small k s = (le_of_nat 0 k (omega arith) s, le_of_nat k safe s (omega arith))

  -- A part of a positive whole is from 0 to 1.
  pub ratio-Between :
      (m : ℕ) (a : Num) → 0 < m → m ≤ safe → Between N 0 m a → Between N 0 1 (div a (of m))
  ratio-Between m a pos s b =
      let b' = Between-widen m safe a s (omega arith) b in
      (
        subst (λ z. Le N z (div a (of m))) (zero-div m pos s)
            (I.div_mono m (of 0) a pos s (small 0 (omega arith)) b' b.0),
        subst (Le N (div a (of m))) (div_self m pos s)
            (I.div_mono m a (of m) pos s b' (small m s) b.1),
      )

  -- A part of 1, scaled to `k`, is from 0 to `k`.
  pub scale-Between : (k : ℕ) (a : Num) → k ≤ safe → Between N 0 1 a → Between N 0 k (mul a (of k))
  scale-Between k a s b =
      let b' = Between-widen 1 safe a (omega arith) (omega arith) b in
      (
        subst (λ z. Le N z (mul a (of k))) (zero-mul k)
            (I.mul_mono k (of 0) a s (small 0 (omega arith)) b' b.0),
        subst (Le N (mul a (of k))) (one-mul k s)
            (I.mul_mono k a (of 1) s b' (small 1 (omega arith)) b.1),
      )

  pub rest-Between : (k : ℕ) (a : Num) → k ≤ safe → Between N 0 k a → Between N 0 k (sub (of k) a)
  rest-Between k a s b =
      let b' = Between-widen k safe a s (omega arith) b in
      (
        subst (λ z. Le N z (sub (of k) a)) (I.sub_of k k (omega arith) s ∙ ap of (omega arith))
            (I.sub_mono k a (of k) s b' (small k s) b.1),
        subst (Le N (sub (of k) a)) (I.sub_of k 0 (omega arith) s ∙ ap of (omega arith))
            (I.sub_mono k (of 0) a s (small 0 (omega arith)) b' b.0),
      )

  min-of : (hi n : ℕ) → n ≤ hi → hi ≤ safe → min N (of hi) (of n) ≡ of n
  min-of hi n h s = elim (Bool-cases (le (of hi) (of n))) [
    | inl e ↦ rw e (ap of (ground (arith, I.le_of hi n (omega arith))))
    | inr e ↦ rw e
  ]

  max-of : (n : ℕ) → n ≤ safe → max N (of 0) (of n) ≡ of n
  max-of n s = elim (Bool-cases (le (of n) (of 0))) [
    | inl e ↦ rw e (ap of (ground (arith, I.le_of n 0 (omega arith))))
    | inr e ↦ rw e
  ]

  -- Clamping leaves a whole number in its range alone.
  pub clamp-of : (hi n : ℕ) → n ≤ hi → hi ≤ safe → max N (of 0) (min N (of hi) (of n)) ≡ of n
  clamp-of hi n h s = rw (min-of hi n h s) (max-of n (omega arith))

  min_mono : (c a b : Num) → is_nan c ≡ false → Le N a b → Le N (min N c a) (min N c b)
  min_mono c a b k h = elim (Bool-cases (le c a)) [
    | inl e ↦ rw (e, I.le_trans c a b e h) (I.le_refl c k)
    | inr e ↦ elim (Bool-cases (le c b)) [
      | inl f ↦ rw (e, f) (below e (I.le_total c a k (I.not_nan a b h).0))
      | inr f ↦ rw (e, f) h
    ]
  ]
    where
      below : le c a ≡ false → Le N c a ⊎ Le N a c → Le N a c
      below e (inl g) = cc
      below e (inr g) = g

  max_mono : (c a b : Num) → is_nan c ≡ false → Le N a b → Le N (max N c a) (max N c b)
  max_mono c a b k h = elim (Bool-cases (le b c)) [
    | inl e ↦ rw (e, I.le_trans a b c h e) (I.le_refl c k)
    | inr e ↦ elim (Bool-cases (le a c)) [
      | inl f ↦ rw (e, f) (above e (I.le_total c b k (I.not_nan a b h).1))
      | inr f ↦ rw (e, f) h
    ]
  ]
    where
      above : le b c ≡ false → Le N c b ⊎ Le N b c → Le N c b
      above e (inl g) = g
      above e (inr g) = cc

  pub clamp_mono :
      (hi : ℕ) (a b : Num)
      → Le N a b
      → Le N (max N (of 0) (min N (of hi) a)) (max N (of 0) (min N (of hi) b))
  clamp_mono hi a b h =
      max_mono (of 0) _ _ (I.of_not_nan 0) (min_mono (of hi) a b (I.of_not_nan hi) h)
