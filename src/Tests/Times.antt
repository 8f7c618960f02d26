-- ===== src/Tests/Times.antt =====
use evolution_exchange.Freebusy.Clear.{covers-clear_interval}
use evolution_exchange.Prelude.{◌∷◌, ℕ, [], ◌≡◌, true, false, arith, refl}
use evolution_exchange.Freebusy.{
  clear_interval, Freebusy, add_interval, oof, busy, Event, merge_events,
}
use evolution_exchange.Freebusy.Cover.{covers, covers-add_interval, merge_events-loses}

-- The results on free/busy times, applied to concrete inputs.
abbrev event : ℕ → ℕ → Event
event s e = record { start = s; end = e }

abbrev busy_times : Freebusy
busy_times = record { start = 10; end = 100; events = λ b. event 20 30 ∷ [] }

add_example : covers ((add_interval busy_times busy 5 25).events busy) 12 ≡ true
add_example = covers-add_interval busy_times busy 5 25 12 tt (omega arith, tt)

merge_example :
    (covers (event 20 30 ∷ event 25 40 ∷ []) 35 ≡ true)
    × (covers (merge_events (event 20 30 ∷ event 25 40 ∷ [])) 35 ≡ false)
merge_example =
    merge_events-loses (event 20 30) (event 25 40) 35 (omega arith) (omega arith) (omega arith)

clear_outside_example : covers ((clear_interval busy_times 25 50).events oof) 22 ≡ true
clear_outside_example = covers-clear_interval busy_times oof 25 50 22 (omega arith) refl
