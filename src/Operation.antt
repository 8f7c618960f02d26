-- ===== src/Operation.antt =====
-- Cancellation: server/lib/e2k-operation.c. One E2kOperation is modelled, with its membership in
-- the table of active operations, which is keyed by the operation's address; every caller of the
-- module shares op_mutex, so that what a call does under it is one function here.
pub mod Steps
pub mod Invariant
pub mod Settles
pub mod Races
pub mod Alone
use evolution_exchange.Prelude.{
  ℕ, Bool, true, false, not, ◌&&◌, ◌||◌, Option, none, some, List, [], ◌∷◌, if◌then◌else◌,
}

-- An address that the caller gives and gets back; `none` is NULL.
abbrev pub Pointer : Type 0
Pointer = Option ℕ

pub record Operation : Type 0 where
  pub cancelled : Bool
  pub canceller : Pointer
  pub owner : Pointer
  pub closure : Pointer

-- Which function makes a call of the canceller.
pub data Caller : Type 0 where
  starter stopper : Caller

-- A call `op->canceller (op, op->owner, op->data)`: a call of NULL where `function` is `none`.
pub record Call : Type 0 where
  pub caller : Caller
  pub function : Pointer
  pub owner : Pointer
  pub closure : Pointer

-- The operation, whether active_ops holds it, and the calls made so far, the last one first.
pub record World : Type 0 where
  pub op : Operation
  pub active : Bool
  pub calls : List Call

abbrev pub given : Pointer → Bool
given none = false
given (some p) = true

-- memset to 0.
abbrev pub cleared : Operation
cleared = record { cancelled = false; canceller = none; owner = none; closure = none }

unfoldable pub operation_init : World → World
operation_init w = record w { op = cleared; active = true }

unfoldable pub operation_free : World → World
operation_free w = record w { active = false }

-- `op->canceller (...)`, outside the lock: the fields are read when the call is made.
unfoldable pub invoke : Caller → World → World
invoke by w = record w {
  calls =
      record { caller = by; function = w.op.canceller; owner = w.op.owner; closure = w.op.closure }
      ∷ w.calls;
}

-- What e2k_operation_start does under the lock, and whether it goes on to call the canceller.
unfoldable pub start_locked : Pointer → Pointer → Pointer → World → World × Bool
start_locked f owner closure w =
    let op' = record w.op { canceller = f; owner = owner; closure = closure } in
    (record w { op = op' }, w.op.cancelled && given f)

unfoldable pub operation_start : Pointer → Pointer → Pointer → World → World
operation_start f owner closure w =
    let (w', go) = start_locked f owner closure w in if go then invoke starter w' else w'

unfoldable pub operation_finish : World → World
operation_finish w = record w {
  op = record w.op { canceller = none; owner = none; closure = none };
}

-- What e2k_operation_cancel does under the lock, and whether it goes on.
unfoldable pub cancel_locked : World → World × Bool
cancel_locked w =
    if not w.active || w.op.cancelled
    then (w, false)
    else (record w { active = false; op = record w.op { cancelled = true } }, true)

-- `if (op->canceller)`, outside the lock.
unfoldable pub cancel_test : World → Bool
cancel_test w = given w.op.canceller

unfoldable pub operation_cancel : World → World
operation_cancel w =
    let (w', go) = cancel_locked w in if go && cancel_test w' then invoke stopper w' else w'

-- `none` is a NULL operation.
unfoldable pub operation_is_cancelled : Option World → Bool
operation_is_cancelled none = false
operation_is_cancelled (some w) = w.op.cancelled
