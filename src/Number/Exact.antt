-- ===== src/Number/Exact.antt =====
-- The interface can be met: whole numbers with NaN, where `/` rounds down and `-` stops at 0.
use native.Mathlib.Nat.{
  mul-div_left, mul-le-mul_right, le-div_iff_mul-le, div-mul-le_self, le_trans as le_trans_nat,
}
use adivento.Base.{
  ℕ, zero, suc, ◌+◌, ltb, ◌↔◌, ◌-◌, ◌*◌, ◌/◌, ◌<◌, Bool, true, false, Option, none, some, ◌≡◌, refl,
  ◌⊎◌, leb, arith, ap, leb→le, le→leb,
}
use adivento.Number.{Number, Le, IsIeee, safe}

abbrev exact_sub : Option ℕ → Option ℕ → Option ℕ
exact_sub (some a) (some b) = some (a - b)
exact_sub _ _ = none

abbrev exact_mul : Option ℕ → Option ℕ → Option ℕ
exact_mul (some a) (some b) = some (a * b)
exact_mul _ _ = none

abbrev exact_div : Option ℕ → Option ℕ → Option ℕ
exact_div (some a) (some zero) = none
exact_div (some a) (some (suc b)) = some (a / suc b)
exact_div _ _ = none

abbrev exact_le : Option ℕ → Option ℕ → Bool
exact_le (some a) (some b) = leb a b
exact_le _ _ = false

abbrev exact_lt : Option ℕ → Option ℕ → Bool
exact_lt (some a) (some b) = ltb a b
exact_lt _ _ = false

abbrev exact_add : Option ℕ → Option ℕ → Option ℕ
exact_add (some a) (some b) = some (a + b)
exact_add _ _ = none

abbrev exact_nan : Option ℕ → Bool
exact_nan none = true
exact_nan (some a) = false

abbrev pub exact : Number
exact = record {
  Num = Option ℕ;
  of = some;
  sub = exact_sub;
  mul = exact_mul;
  div = exact_div;
  add = exact_add;
  abs = λ a. a;
  infinity = some (10 * safe);
  lt = exact_lt;
  le = exact_le;
  is_nan = exact_nan;
  round = λ a. a;
}

le_total :
    (a b : Option ℕ) → exact_nan a ≡ false → exact_nan b ≡ false → Le exact a b ⊎ Le exact b a
le_total (some a) (some b) h k = ground arith
le_total none b h k = cc
le_total (some a) none h k = cc

le_trans : (a b c : Option ℕ) → Le exact a b → Le exact b c → Le exact a c
le_trans (some a) (some b) (some c) h k = ground arith
le_trans none b c h k = cc
le_trans (some a) none c h k = cc
le_trans (some a) (some b) none h k = cc

not_nan : (a b : Option ℕ) → Le exact a b → (exact_nan a ≡ false) × (exact_nan b ≡ false)
not_nan (some a) (some b) h = (refl, refl)
not_nan none b h = cc
not_nan (some a) none h = cc

lt_iff : (a b : Option ℕ) → (exact_lt a b ≡ true) ↔ (Le exact a b × (exact_le b a ≡ false))
lt_iff (some a) (some b) = ground arith
lt_iff none b = ((λ h. cc), λ h. cc)
lt_iff (some a) none = ((λ h. cc), λ h. absurd cc)

le_refl : (a : Option ℕ) → exact_nan a ≡ false → Le exact a a
le_refl (some a) h = ground arith
le_refl none h = cc

div_of : (m n : ℕ) → 0 < n → exact_div (some (m * n)) (some n) ≡ some m
div_of m zero h = absurd (omega arith)
div_of m (suc n) h = ap some (mul-div_left m h)

sub_mono :
    (n : ℕ) (a b : Option ℕ) → Le exact a b → Le exact (exact_sub (some n) b) (exact_sub (some n) a)
sub_mono n (some a) (some b) h = ground arith
sub_mono n none b h = cc
sub_mono n (some a) none h = cc

mul_mono :
    (n : ℕ) (a b : Option ℕ) → Le exact a b → Le exact (exact_mul a (some n)) (exact_mul b (some n))
mul_mono n (some a) (some b) h = le→leb (a * n) (b * n) (mul-le-mul_right n (leb→le a b h))
mul_mono n none b h = cc
mul_mono n (some a) none h = cc

div_mono :
    (n : ℕ) (a b : Option ℕ)
    → 0 < n
    → Le exact a b
    → Le exact (exact_div a (some n)) (exact_div b (some n))
div_mono zero a b p h = absurd (omega arith)
div_mono (suc n) (some a) (some b) p h =
    le→leb (a / suc n) (b / suc n)
      ((le-div_iff_mul-le p).1 (le_trans_nat (div-mul-le_self a (suc n)) (leb→le a b h)))
div_mono (suc n) none b p h = cc
div_mono (suc n) (some a) none p h = cc

nan_mul : (a b : Option ℕ) → exact_nan a ≡ true → exact_nan (exact_mul a b) ≡ true
nan_mul none b h = refl
nan_mul (some a) b h = cc

pub exact-IsIeee : IsIeee exact
exact-IsIeee = record {
  le_refl = le_refl;
  le_total = le_total;
  le_trans = le_trans;
  lt_iff = lt_iff;
  not_nan = not_nan;
  of_not_nan = λ n. refl;
  le_of = λ m n s. refl;
  sub_of = λ m n h s. refl;
  mul_of = λ m n s. refl;
  div_of = λ m n p s. div_of m n p;
  zero_div_zero = refl;
  nan_mul = nan_mul;
  round_of = λ n s. refl;
  round_mono = λ a b h. h;
  sub_mono = λ n a b s ha hb. sub_mono n a b;
  mul_mono = λ n a b s ha hb. mul_mono n a b;
  div_mono = λ n a b p s ha hb. div_mono n a b p;
}
