-- ===== src/Operation/Alone.antt =====
-- The functions of server/lib/e2k-operation.c, called while no other thread is under way.
use evolution_exchange.Prelude.{Bool, true, ℕ, suc, ◌≡◌, suc}
use evolution_exchange.Operation.{
  Pointer, World, start_locked, cancel_locked, cancel_test, false, Bool, ℕ,
}
use evolution_exchange.Operation.Steps.{
  System, do_start, do_start_call, do_cancel, do_test, do_call,
}

-- No thread is between the lock and its call.
abbrev pub quiet : World → System
quiet w = record { world = w; starting = 0; armed = 0; tested = 0 }

-- Where a thread is: in front of a function, in front of its test or its call, or behind it.
pub data Place : Type 0 where
  in_start : Pointer → Pointer → Pointer → Place
  in_cancel at_start_call at_test at_call returned : Place

abbrev pub go_to : Bool → Place → Place
go_to true p = p
go_to false p = returned

-- One thread goes from a place to the end of its function, by its own steps only.
pub data Runs : Place → System → System → Type 0 where
  stays : {s : System} → Runs returned s s
  starts :
      {s u : System} (f owner closure : Pointer)
      → Runs
          (go_to (start_locked f owner closure s.world).1 at_start_call)
          (do_start f owner closure s)
          u
      → Runs (in_start f owner closure) s u
  start_calls :
      {s u : System} (n : ℕ)
      → s.starting ≡ suc n
      → Runs returned (do_start_call n s) u
      → Runs at_start_call s u
  cancels :
      {s u : System}
      → Runs (go_to (cancel_locked s.world).1 at_test) (do_cancel s) u
      → Runs in_cancel s u
  tests :
      {s u : System} (n : ℕ)
      → s.armed ≡ suc n
      → Runs (go_to (cancel_test s.world) at_call) (do_test n s) u
      → Runs at_test s u
  calls :
      {s u : System} (n : ℕ) → s.tested ≡ suc n → Runs returned (do_call n s) u → Runs at_call s u
