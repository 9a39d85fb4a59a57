-- ===== src/Canvas/Export/Fonts/Ends.antt =====
-- The loop over `pending` ends: every answer settles one more address.
use adivento.Base.{
  ℕ, zero, suc, Bool, true, false, not, ◌≡◌, refl, ap, Option, List, [], ◌∷◌, ◌++◌, filter, length,
  ===_iff, includes, nat_eq, list_eq, Text, arith, ◌≤◌, ◌<◌, ◌+◌,
}
use adivento.Base.Counts.{includes-append}
use adivento.Canvas.Export.Fonts.{Crawl, settle, in_flight, Run, stay, arrive}
use adivento.Canvas.Export.Fonts.Settle.{Inv, Inv-settle, imported, settled-settle, seen-settle}

open_in : List Text → Text → Bool
open_in done u = not (includes done u)

-- How many of the addresses have no answer.
unsettled : List Text → List Text → ℕ
unfolding open_in
unsettled done us = length (filter (open_in done) us)

module _ (u : Text) (done : List Text) where
  unsettled-le : (us : List Text) → unsettled (done ++ u ∷ []) us ≤ unsettled done us
  unfolding unsettled open_in
  unsettled-le [] = omega arith
  unsettled-le (v ∷ us) = ground (arith, unsettled-le us, includes-append v done (u ∷ []))

  unsettled-lt :
      (us : List Text)
      → includes us u ≡ true
      → includes done u ≡ false
      → unsettled (done ++ u ∷ []) us < unsettled done us
  unfolding unsettled open_in
  unsettled-lt [] h n = cc
  unsettled-lt (v ∷ us) h n = ground (
    arith,
    unsettled-le us,
    unsettled-lt us,
    includes-append v done (u ∷ []),
    ===_iff v u,
    ===_iff u v,
  )

module _ (fetch : Text → Option Text) (resolve : Text → Text → Option Text) (us : List Text) where
  -- All addresses that the search can meet stand in the list.
  pub record Within (c : Crawl) : Type 0 where
    pub asked : (u : Text) → includes c.seen u ≡ true → includes us u ≡ true
    pub closed :
        (u v : Text)
        → includes us u ≡ true
        → includes (imported fetch resolve u) v ≡ true
        → includes us v ≡ true

  abbrev left : Crawl → ℕ
  left c = unsettled c.settled us

  Within-settle :
      (u : Text) (c : Crawl)
      → in_flight fetch resolve c u ≡ true
      → Within c
      → Within (settle fetch resolve u c)
  unfolding in_flight
  Within-settle u c fly w = record {
    asked =
        λ v s. ground (arith, seen-settle fetch resolve u v c, w.asked u, w.asked v, w.closed u v);
    closed = w.closed;
  }

  left-settle :
      (u : Text) (c : Crawl)
      → in_flight fetch resolve c u ≡ true
      → Within c
      → left (settle fetch resolve u c) < left c
  unfolding in_flight
  left-settle u c fly w =
      rw (settled-settle fetch resolve u c)
        (unsettled-lt u c.settled us (w.asked u (ground arith)) (ground arith))

  Run-le : (c d : Crawl) (n : ℕ) → Run fetch resolve c d n → Within c → n + left d ≤ left c
  Run-le c d zero stay w = omega arith
  Run-le c d (suc n) (arrive u fly r) w = omega (
    arith,
    Run-le (settle fetch resolve u c) d n r (Within-settle u c fly w),
    left-settle u c fly w,
  )

  Run-keeps : (c d : Crawl) (n : ℕ) → Run fetch resolve c d n → Inv c → Within c → Inv d × Within d
  Run-keeps c d zero stay inv w = (inv, w)
  Run-keeps c d (suc n) (arrive u fly r) inv w =
      Run-keeps (settle fetch resolve u c) d n r (Inv-settle fetch resolve u c inv fly)
        (Within-settle u c fly w)

  -- The promise that the loop awaits is one whose answer can arrive.
  awaited-in_flight :
      (c : Crawl) (u : Text) (rest : List Text)
      → c.pending ≡ u ∷ rest
      → Inv c
      → in_flight fetch resolve c u ≡ true
  unfolding in_flight
  awaited-in_flight c u rest e inv =
      ground (arith, inv.head u rest e, inv.live u, ap (λ p. includes p u) e, ===_iff u u)

  -- Some answers end the loop.
  abbrev CanEnd : Crawl → Type 0
  CanEnd c = (d : Crawl) × (n : ℕ) × Run fetch resolve c d n × (d.pending ≡ [])

  finish_from :
      (fuel : ℕ) (c : Crawl) (ps : List Text)
      → c.pending ≡ ps
      → left c ≤ fuel
      → Inv c
      → Within c
      → CanEnd c
  finish_from fuel c [] e h inv w = (c, 0, stay, e)
  finish_from zero c (u ∷ rest) e h inv w =
      absurd (omega (arith, left-settle u c (awaited-in_flight c u rest e inv) w))
  finish_from (suc fuel) c (u ∷ rest) e h inv w =
      let fly = awaited-in_flight c u rest e inv in
      let later =
        finish_from fuel (settle fetch resolve u c) (settle fetch resolve u c).pending refl
          (omega (arith, left-settle u c fly w)) (Inv-settle fetch resolve u c inv fly)
          (Within-settle u c fly w) in
      (later.0, suc later.1, arrive u fly later.2, later.3)

  unsettled-le-length : (done vs : List Text) → unsettled done vs ≤ length vs
  unfolding unsettled open_in
  unsettled-le-length done [] = omega arith
  unsettled-le-length done (v ∷ vs) = ground (arith, unsettled-le-length done vs)

  pub answers_finish :
      (c : Crawl)
      → Inv c
      → Within c
      → (d : Crawl) (n : ℕ) → Run fetch resolve c d n
      → (n ≤ length us) × CanEnd d
  answers_finish c inv w d n r =
      let kept = Run-keeps c d n r inv w in
      (
        omega (arith, Run-le c d n r w, unsettled-le-length c.settled us),
        finish_from (left d) d d.pending refl (omega arith) kept.0 kept.1,
      )
