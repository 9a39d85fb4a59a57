-- ===== src/Adivento/Live/Laws.antt =====
-- Intervals and prices of the demo timer.
use adivento.Base.{
  ℕ, zero, suc, ◌≤◌, ◌<◌, ◌+◌, ◌*◌, ◌/◌, Option, none, some, List, [], ◌∷◌, ◌++◌, ◌≡◌, refl, filter,
  not, All, ◌===◌, nat_eq, arith,
}
use adivento.Adivento.Live.{Interval, Clock, stop, start, period, Price, Walk, current, tick}

-- The page had the intervals `others`, all with ids below `f`, before this object started one.
-- `_timer` names the one interval that stands behind them, or there is none.
pub data Owns (f : ℕ) (others : List Interval) (c : Clock) : Type 0 where
  idle : c.timer ≡ none → c.running ≡ others → f ≤ c.fresh → Owns f others c
  busy :
      (i : Interval)
      → c.timer ≡ some i.id
      → c.running ≡ others ++ i ∷ []
      → f ≤ i.id
      → i.id < c.fresh
      → Owns f others c

abbrev pub Older : ℕ → List Interval → Type 0
Older f = All (λ j. j.id < f)

-- The calls of a page.
pub data Call : Type 0 where
  starts : Option ℕ → Call
  stops : Call

pub call : Clock → Call → Clock
unfolding start stop
call c (starts ms) = start ms c
call c stops = stop c

pub run : Clock → List Call → Clock
run c [] = c
run c (k ∷ ks) = run (call c k) ks

module _ (f : ℕ) where
  filter-last :
      (i : Interval) (xs : List Interval)
      → f ≤ i.id
      → Older f xs
      → filter (λ j. not (j.id === i.id)) (xs ++ i ∷ []) ≡ xs
  filter-last i [] lo h = ground arith
  filter-last i (x ∷ xs) lo h = ground (arith, filter-last i xs lo h.1)

  module _ (others : List Interval) (old : Older f others) where
    stop-running :
        (c : Clock)
        → Owns f others c
        → ((stop c).running ≡ others) × ((stop c).timer ≡ none) × (f ≤ (stop c).fresh)
    unfolding stop
    stop-running c (idle t r g) = ground arith
    stop-running c (busy i t r lo hi) = ground (arith, filter-last i others lo old)

    start-running :
        (ms : Option ℕ) (c : Clock)
        → Owns f others c
        → (i : Interval) × ((start ms c).timer ≡ some i.id)
          × ((start ms c).running ≡ others ++ i ∷ [])
          × (f ≤ i.id)
          × (i.id < (start ms c).fresh)
          × (i.ms ≡ period ms)
    unfolding start
    start-running ms c o =
        let (r, t, g) = stop-running c o in
        (record { id = (stop c).fresh; ms = period ms }, refl, rw r, g, omega arith, refl)

    call-Owns : (k : Call) (c : Clock) → Owns f others c → Owns f others (call c k)
    unfolding call
    call-Owns (starts ms) c o = let (i, t, r, lo, hi, _) = start-running ms c o in busy i t r lo hi
    call-Owns stops c o = let (r, t, g) = stop-running c o in idle t r g

    run-Owns : (ks : List Call) (c : Clock) → Owns f others c → Owns f others (run c ks)
    unfolding run
    run-Owns [] c o = o
    run-Owns (k ∷ ks) c o = run-Owns ks (call c k) (call-Owns k c o)

-- A page without an interval of this object.
abbrev pub ready : ℕ → List Interval → Clock
ready f others = record { running = others; fresh = f; timer = none }

-- After any calls of `start` and `stop`, one more `start` leaves exactly one interval of this object
-- behind those of the rest of the page, with the period asked for, and one more `stop` leaves none.
pub run-start-stop :
    (f : ℕ) (others : List Interval) (ks : List Call) (ms : Option ℕ)
    → Older f others
    → ((i : Interval) × ((start ms (run (ready f others) ks)).running ≡ others ++ i ∷ [])
        × (i.ms ≡ period ms))
      × ((stop (run (ready f others) ks)).running ≡ others)
run-start-stop f others ks ms old =
    let o = run-Owns f others old ks (ready f others) (idle refl refl (omega arith)) in
    let (i, _, r, _, _, p) = start-running f others old ms (run (ready f others) ks) o in
    ((i, r, p), (stop-running f others old (run (ready f others) ks) o).0)

-- Whatever the random step and the attribute were, the next value is from 2 to 98, the event
-- carries the value that is stored, and a percentage that is shown is the next value rounded.
pub tick-bounds :
    (w : Walk) (p : Price) (old : ℕ)
    → p.percent ≡ some old
    → ((tick w p).0.value ≡ some (tick w p).1)
      × (20 ≤ (tick w p).1)
      × ((tick w p).1 ≤ 980)
      × ((n : ℕ) × ((tick w p).0.percent ≡ some n)
          × (10 * n ≤ (tick w p).1 + 5)
          × ((tick w p).1 < 10 * n + 5))
unfolding tick
tick-bounds w p old h =
    (refl, omega arith, omega arith, (((tick w p).1 + 5) / 10, rw h refl, omega arith, omega arith))

current-pos : (v : ℕ) → 0 < v → current (some v) ≡ v
unfolding current
current-pos zero h = absurd (omega arith)
current-pos (suc v) h = refl
