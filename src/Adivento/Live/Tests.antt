-- ===== src/Adivento/Live/Tests.antt =====
-- Runs of the demo's timer, and the theorems at concrete values.
use adivento.Base.{none, some, [], ◌∷◌, ◌++◌, ◌≡◌, refl, arith}
use adivento.Adivento.Live.{Interval, Clock, stop, start, period, Price, up, tick}
use adivento.Adivento.Live.Laws.{starts, stops, run, ready, run-start-stop}

abbrev clock : Interval
clock = record { id = 1; ms = 1000 }

abbrev page : Clock
page = ready 7 (clock ∷ [])

started : (start (some 500) (start none page)).running ≡ clock ∷ record { id = 8; ms = 500 } ∷ []
unfolding start
started = refl

run-start-stop_example :
    ((i : Interval) × ((start none
          (run (ready 7 (clock ∷ [])) (starts (some 500) ∷ stops ∷ []))).running
        ≡ (clock ∷ []) ++ i ∷ [])
      × (i.ms ≡ period none))
    × ((stop (run (ready 7 (clock ∷ [])) (starts (some 500) ∷ stops ∷ []))).running ≡ clock ∷ [])
run-start-stop_example =
    run-start-stop 7 (clock ∷ []) (starts (some 500) ∷ stops ∷ []) none (omega arith)

abbrev price : Price
price = record { value = some 979; percent = some 98 }

tick_up : tick (up 14) price ≡ (record { value = some 980; percent = some 98 }, 980)
unfolding tick
tick_up = refl

abbrev middle : Price
middle = record { value = some 500; percent = none }
