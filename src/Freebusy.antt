-- ===== src/Freebusy.antt =====
-- Free/busy times: the events that server/lib/e2k-freebusy.c keeps for each status. A time_t is only
-- compared here, so that a natural number stands for it, counted from the earliest time.
pub mod Cover
pub mod Clear
use evolution_exchange.Prelude.{ℕ, Bool, true, false, ◌||◌, List, [], ◌∷◌, ltb, leb, if◌then◌else◌}

-- E2kFreebusyEvent
pub record Event : Type 0 where
  pub start : ℕ
  pub end : ℕ

-- E2kBusyStatus; FREE stands for ALL in the array of events.
pub data BusyStatus : Type 0 where
  free tentative busy oof : BusyStatus

-- The range and the events of an E2kFreebusy.
pub record Freebusy : Type 0 where
  pub start : ℕ
  pub end : ℕ
  pub events : BusyStatus → List Event

-- The loop of merge_events, from the second event on, with its local `evt`. What it removes from the
-- array is left out; `evt` itself is never put back.
unfoldable pub merge_from : Event → List Event → List Event
merge_from evt [] = []
merge_from evt (evt2 ∷ rest) =
    let longer =
      merge_from
        (record { start = evt.start; end = if ltb evt.end evt2.end then evt2.end else evt.end })
        rest in
    let next = merge_from evt2 rest in if leb evt2.start evt.end then longer else evt2 ∷ next

unfoldable pub merge_events : List Event → List Event
merge_events [] = []
merge_events (evt ∷ rest) = evt ∷ merge_from evt rest

-- MIN and MAX
abbrev pub min_time : ℕ → ℕ → ℕ
min_time a b = if ltb a b then a else b

abbrev pub max_time : ℕ → ℕ → ℕ
max_time a b = if ltb b a then a else b

-- From the search for the first event that is not completely before the interval on.
unfoldable pub add_event : ℕ → ℕ → List Event → List Event
add_event start end [] = record { start = start; end = end } ∷ []
add_event start end (evt ∷ rest) =
    let later = add_event start end rest in
    if leb start evt.end
    then (if ltb end evt.start
        then record { start = start; end = end } ∷ evt ∷ rest
        else record { start = min_time evt.start start; end = max_time evt.end end } ∷ rest)
    else evt ∷ later

abbrev pub same_status : BusyStatus → BusyStatus → Bool
same_status free free = true
same_status tentative tentative = true
same_status busy busy = true
same_status oof oof = true
same_status _ _ = false

-- Behind the test for FREE, on the clipped interval.
unfoldable pub add_clipped : Freebusy → BusyStatus → ℕ → ℕ → Freebusy
add_clipped fb busystatus start end = if leb end start then fb else record fb {
  events = λ b. if same_status b busystatus then add_event start end (fb.events b) else fb.events b;
}

unfoldable pub add_interval : Freebusy → BusyStatus → ℕ → ℕ → Freebusy
add_interval fb free start end = fb
add_interval fb busystatus start end =
    add_clipped fb busystatus (if ltb start fb.start then fb.start else start)
      (if ltb fb.end end then fb.end else end)

-- "Truncate": first the start, then the end of an event.
unfoldable pub truncate : ℕ → ℕ → Event → Event
truncate start end evt =
    let cut : Event = record {
      start = if ltb start evt.start then end else evt.start;
      end = evt.end;
    } in
    record { start = cut.start; end = if ltb cut.end end then start else cut.end }

unfoldable pub clear_events : ℕ → ℕ → List Event → List Event
clear_events start end [] = []
clear_events start end (evt ∷ rest) =
    let others = clear_events start end rest in
    let cut = truncate start end evt in
    if ltb evt.end start || ltb end evt.start
    then evt ∷ others
    else if leb cut.end cut.start
    then others
    else cut ∷ others

unfoldable pub clear_interval : Freebusy → ℕ → ℕ → Freebusy
clear_interval fb start end = record fb { events = λ b. clear_events start end (fb.events b) }
