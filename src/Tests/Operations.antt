-- ===== src/Tests/Operations.antt =====
-- The results on cancellation, applied to concrete runs.
use evolution_exchange.Prelude.{some, none, refl, [], ◌∷◌, ◌≡◌}
use evolution_exchange.Operation.{starter, stopper, start_locked, cancel_locked}
use evolution_exchange.Operation.Steps.{
  System, Reach, initial, start, cancel, here, next, do_start, do_cancel,
}
use evolution_exchange.Operation.Invariant.{IsSound, IsAnswered, Reach-IsSound}
use evolution_exchange.Operation.Settles.{IsSettled, Reach-IsAnswered}
use evolution_exchange.Operation.Races.{made, races}

-- A call is started with the canceller 7, and cancelled by another thread.
abbrev cancelled_call : System
cancelled_call = do_cancel (do_start (some 7) (some 1) none initial)

cancelled_call-Reach : Reach initial cancelled_call
cancelled_call-Reach = next (next here (start (some 7) (some 1) none)) cancel

sound_example : IsSound cancelled_call
sound_example = Reach-IsSound cancelled_call-Reach

settle_example :
    (u : System) × Reach cancelled_call u
    × (u.world.op ≡ cancelled_call.world.op)
    × IsSettled u
    × IsAnswered u.world.op u.world.calls
settle_example =
    Reach-IsAnswered cancelled_call-Reach (unfold start_locked cancel_locked in refl)
      (unfold start_locked cancel_locked in refl)

races_example :
    ((s : System) × Reach initial s × (s.world.calls ≡ made stopper none none none ∷ []))
    × ((s : System) × Reach initial s
        × (s.world.calls
            ≡ made stopper (some 7) (some 1) none ∷ made starter (some 7) (some 1) none ∷ []))
    × ((s : System) × Reach initial s × (s.world.calls ≡ made starter none none none ∷ []))
races_example = races 7 (some 1) none
