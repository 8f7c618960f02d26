-- ===== src/Operation/Races.antt =====
-- Runs in which threads of server/lib/e2k-operation.c meet between the lock and the call.
use evolution_exchange.Prelude.{ℕ, ◌≡◌, ◌∷◌, refl}
use evolution_exchange.Operation.{
  Pointer, Call, World, Caller, start_locked, cancel_locked, cancel_test, invoke, operation_finish,
  stopper, none, some, [], starter,
}
use evolution_exchange.Operation.Steps.{
  System, Reach, initial, start, start_call, finish, cancel, test, call, here, next,
}

abbrev quiet : World → System
quiet w = record { world = w; starting = 0; armed = 0; tested = 0 }

-- The calls at the top of the log, the last one first.
abbrev pub made : Caller → Pointer → Pointer → Pointer → Call
made by f owner closure = record { caller = by; function = f; owner = owner; closure = closure }

finish_races :
    (f : ℕ) (owner closure : Pointer)
    → (s : System) × Reach initial s × (s.world.calls ≡ made stopper none none none ∷ [])
unfolding start_locked cancel_locked cancel_test invoke operation_finish
finish_races f owner closure = (
  _,
  next (next (next (next (next here (start (some f) owner closure)) cancel) (test 0 refl)) finish)
      (call 0 refl),
  refl,
)

start_races :
    (f : ℕ) (owner closure : Pointer)
    → (s : System) × Reach initial s
      × (s.world.calls
          ≡ made stopper (some f) owner closure ∷ made starter (some f) owner closure ∷ [])
unfolding start_locked cancel_locked cancel_test invoke
start_races f owner closure = (
  _,
  next
      (next (next (next (next here cancel) (start (some f) owner closure)) (start_call 0 refl))
        (test 0 refl))
      (call 0 refl),
  refl,
)

started_races :
    (f : ℕ) (owner closure : Pointer)
    → (s : System) × Reach initial s × (s.world.calls ≡ made starter none none none ∷ [])
unfolding start_locked cancel_locked cancel_test invoke operation_finish
started_races f owner closure = (
  _,
  next (next (next (next here cancel) (start (some f) owner closure)) finish) (start_call 0 refl),
  refl,
)

-- For every canceller, owner and data there are a run in which e2k_operation_cancel calls NULL,
-- as a thread finishes between its test and its call, a run in which the canceller is called
-- twice for one cancellation, by e2k_operation_start and by e2k_operation_cancel, and a run in
-- which e2k_operation_start calls NULL, as another thread finishes before its call.
pub races :
    (f : ℕ) (owner closure : Pointer)
    → ((s : System) × Reach initial s × (s.world.calls ≡ made stopper none none none ∷ []))
      × ((s : System) × Reach initial s
          × (s.world.calls
              ≡ made stopper (some f) owner closure ∷ made starter (some f) owner closure ∷ []))
      × ((s : System) × Reach initial s × (s.world.calls ≡ made starter none none none ∷ []))
races f owner closure =
    (finish_races f owner closure, start_races f owner closure, started_races f owner closure)
