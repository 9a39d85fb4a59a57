-- ===== src/Base/Counts.antt =====
-- How often a value stands in a list, under the list operations of the source.
use adivento.Base.Tests.{if◌then◌else◌}
use adivento.Base.Equality.{Eq, ===_iff}
use adivento.Base.Lists.{filter, includes, count}
use Prim.Native.Nat.{◌+◌, ◌≤◌}
use mathlib.Core.Path.{◌≡◌, refl}
use mathlib.Core.Bool.{Bool, true, false, ◌||◌}
use mathlib.Core.List.{List, [], ◌∷◌, ◌++◌}
use mathlib.Core.Logic.{◌↔◌}
use native.Mathlib.Omega.{arith}

module _ {ℓ} {A : Type ℓ} ⦃e : Eq A⦄ where
  pub count-append : (a : A) (xs ys : List A) → count a (xs ++ ys) ≡ count a xs + count a ys
  count-append a [] ys = omega arith
  count-append a (x ∷ xs) ys = ground (arith, count-append a xs ys)

  pub count-filter :
      (p : A → Bool) (a : A) (xs : List A) → count a (filter p xs) ≡ (if p a then count a xs else 0)
  count-filter p a [] = ground arith
  count-filter p a (x ∷ xs) = ground (arith, count-filter p a xs, ===_iff x a)

  pub includes-count : (a : A) (xs : List A) → (includes xs a ≡ true) ↔ (1 ≤ count a xs)
  includes-count a [] = ((λ h. cc), λ h. absurd (omega arith))
  includes-count a (x ∷ xs) = ground (arith, includes-count a xs)

  pub includes-filter :
      (p : A → Bool) (a : A) (xs : List A)
      → includes (filter p xs) a ≡ (if p a then includes xs a else false)
  includes-filter p a [] = ground arith
  includes-filter p a (x ∷ xs) = ground (arith, includes-filter p a xs, ===_iff x a)

  pub includes-append :
      (a : A) (xs ys : List A) → includes (xs ++ ys) a ≡ (includes xs a || includes ys a)
  includes-append a [] ys = refl
  includes-append a (x ∷ xs) ys = ground (arith, includes-append a xs ys)

module _ {ℓ} {A : Type ℓ} where
  pub filter-append :
      (p : A → Bool) (xs ys : List A) → filter p (xs ++ ys) ≡ filter p xs ++ filter p ys
  filter-append p [] ys = refl
  filter-append p (x ∷ xs) ys = ground (arith, filter-append p xs ys)

  pub filter_comm : (p q : A → Bool) (xs : List A) → filter p (filter q xs) ≡ filter q (filter p xs)
  filter_comm p q [] = refl
  filter_comm p q (x ∷ xs) = ground (arith, filter_comm p q xs)
