-- ===== src/Adivento/Live.antt =====
-- `Adivento.live` of app/assets/javascripts/adivento.js: the demo's timer. Prices are in tenths of a
-- percent, the precision that `toFixed(1)` keeps in the attribute; the step of the random walk is
-- an argument.
pub mod Laws
mod Tests
use Prim.Native.Nat.{min, max}
use adivento.Base.{
  ℕ, zero, suc, ◌+◌, ◌-◌, ◌/◌, Bool, Option, none, some, List, [], ◌∷◌, ◌++◌, filter, not, ◌===◌,
  nat_eq, if◌then◌else◌,
}

-- An interval that the browser runs: the id that `setInterval` gives out, and its period.
pub record Interval : Type 0 where
  pub id : ℕ
  pub ms : ℕ

pub record Clock : Type 0 where
  pub running : List Interval
  pub fresh : ℕ
  pub timer : Option ℕ

-- `clearInterval(k)`
pub clear_interval : ℕ → Clock → Clock
clear_interval k c = record c { running = filter (λ j. not (j.id === k)) c.running }

pub stop : Clock → Clock
unfolding clear_interval
stop c = elim c.timer [
  | none ↦ record c { timer = none }
  | some k ↦ record (clear_interval k c) { timer = none }
]

-- `intervalMs || 2200`
pub period : Option ℕ → ℕ
period none = 2200
period (some zero) = 2200
period (some (suc n)) = suc n

pub start : Option ℕ → Clock → Clock
unfolding stop period
start ms c =
    let s = stop c in
    record {
      running = s.running ++ record { id = s.fresh; ms = period ms } ∷ [];
      fresh = suc s.fresh;
      timer = some s.fresh;
    }

-- An element of `[data-ds-live]`: its `data-value` as `parseFloat` reads it, and the percentage in
-- its text, if it has a part with `data-live-pct`.
pub record Price : Type 0 where
  pub value : Option ℕ
  pub percent : Option ℕ

-- A step of the walk: up or down by so many tenths.
pub data Walk : Type 0 where
  up down : ℕ → Walk

pub walk : Walk → ℕ → ℕ
walk (up d) v = v + d
walk (down d) v = v - d

-- `parseFloat(…) || 50`
pub current : Option ℕ → ℕ
current none = 500
current (some zero) = 500
current (some (suc v)) = suc v

-- `Math.max(2, Math.min(98, v + …))`. A fall below 0 meets the lower bound also where `-` stops at 0.
pub bounded : Walk → ℕ → ℕ
unfolding walk
bounded w v = max 20 (min 980 (walk w v))

-- The body of the interval for one element, and the value that `ds:tick` carries.
pub tick : Walk → Price → Price × ℕ
unfolding bounded current
tick w p =
    let v = bounded w (current p.value) in
    (
      record {
        value = some v;
        percent = elim p.percent [ none ↦ none | some old ↦ some ((v + 5) / 10) ];
      },
      v,
    )
