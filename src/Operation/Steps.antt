-- ===== src/Operation/Steps.antt =====
-- The functions of server/lib/e2k-operation.c run by any number of threads that start, finish,
-- free and cancel. What is done under op_mutex
-- is one step; each test or call of op->canceller outside of it is a step of its own.
use evolution_exchange.Prelude.{ℕ, suc, ◌+◌, Bool, true, false, ◌≡◌, []}
use evolution_exchange.Operation.{
  Pointer, World, starter, stopper, cleared, operation_free, operation_finish, invoke, start_locked,
  cancel_locked, cancel_test,
}

-- `starting` threads are between the lock and the call of the canceller in e2k_operation_start.
-- `armed` threads are in front of the test in e2k_operation_cancel, `tested` ones between the test and the call.
pub record System : Type 0 where
  pub world : World
  pub starting : ℕ
  pub armed : ℕ
  pub tested : ℕ

-- Just after e2k_operation_init.
abbrev pub initial : System
initial = record {
  world = record { op = cleared; active = true; calls = [] };
  starting = 0;
  armed = 0;
  tested = 0;
}

abbrev pub count : Bool → ℕ
count true = 1
count false = 0

abbrev pub do_start : Pointer → Pointer → Pointer → System → System
do_start f owner closure s = record s {
  world = (start_locked f owner closure s.world).0;
  starting = count (start_locked f owner closure s.world).1 + s.starting;
}

abbrev pub do_start_call : ℕ → System → System
do_start_call n s = record s { world = invoke starter s.world; starting = n }

abbrev pub do_finish : System → System
do_finish s = record s { world = operation_finish s.world }

abbrev pub do_free : System → System
do_free s = record s { world = operation_free s.world }

abbrev pub do_cancel : System → System
do_cancel s = record s {
  world = (cancel_locked s.world).0;
  armed = count (cancel_locked s.world).1 + s.armed;
}

abbrev pub do_test : ℕ → System → System
do_test n s = record s { armed = n; tested = count (cancel_test s.world) + s.tested }

abbrev pub do_call : ℕ → System → System
do_call n s = record s { world = invoke stopper s.world; tested = n }

pub data Step (s : System) : System → Type 0 where
  start : (f owner closure : Pointer) → Step s (do_start f owner closure s)
  start_call : (n : ℕ) → s.starting ≡ suc n → Step s (do_start_call n s)
  finish : Step s (do_finish s)
  free : Step s (do_free s)
  cancel : Step s (do_cancel s)
  test : (n : ℕ) → s.armed ≡ suc n → Step s (do_test n s)
  call : (n : ℕ) → s.tested ≡ suc n → Step s (do_call n s)

pub data Reach (s : System) : System → Type 0 where
  here : Reach s s
  next : {t u : System} → Reach s t → Step t u → Reach s u
