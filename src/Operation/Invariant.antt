-- ===== src/Operation/Invariant.antt =====
-- What holds in every state that the threads of server/lib/e2k-operation.c can reach.
use evolution_exchange.Prelude.{ℕ, ◌+◌, ◌≤◌, ◌<◌, ◌≡◌, ◌⊎◌, true, false, List, [], ◌∷◌, arith}
use evolution_exchange.Operation.{
  Operation, Caller, Call, starter, stopper, given, invoke, start_locked, cancel_locked,
  cancel_test, operation_free, operation_finish,
}
use evolution_exchange.Operation.Steps.{
  System, Step, Reach, initial, count, start, start_call, finish, free, cancel, test, call, here,
  next,
}

abbrev by_stopper : Caller → ℕ
by_stopper starter = 0
by_stopper stopper = 1

-- The calls that e2k_operation_cancel has made.
abbrev pub stops : List Call → ℕ
stops [] = 0
stops (c ∷ cs) = by_stopper c.caller + stops cs

-- The canceller that is set has been called, with its owner and its data.
abbrev pub IsAnswered : Operation → List Call → Type 0
IsAnswered op [] = ⊥
IsAnswered op (c ∷ cs) =
    ((c.function ≡ op.canceller) × (c.owner ≡ op.owner) × (c.closure ≡ op.closure))
    ⊎ IsAnswered op cs

pub record IsSound (s : System) : Type 0 where
  pub once : stops s.world.calls + s.armed + s.tested ≤ count s.world.op.cancelled
  pub silent : s.world.op.cancelled ≡ false → s.world.calls ≡ []
  pub inactive : s.world.op.cancelled ≡ true → s.world.active ≡ false
  pub starts : 0 < s.starting → s.world.op.cancelled ≡ true
  pub kept :
      s.world.op.cancelled ≡ true
      → given s.world.op.canceller ≡ true
      → (0 < s.starting) ⊎ (0 < s.armed + s.tested) ⊎ IsAnswered s.world.op s.world.calls

initial-IsSound : IsSound initial
initial-IsSound = ground arith

Step-IsSound : {s t : System} → Step s t → IsSound s → IsSound t
unfolding start_locked cancel_locked cancel_test invoke operation_free operation_finish
Step-IsSound (start f owner closure) v = ground arith
Step-IsSound (start_call n e) v = ground arith
Step-IsSound finish v = ground arith
Step-IsSound free v = ground arith
Step-IsSound cancel v = ground arith
Step-IsSound (test n e) v = ground arith
Step-IsSound (call n e) v = ground arith

-- Whatever threads start, finish, free and cancel an operation, e2k_operation_cancel calls the
-- canceller at most once, nothing is called and no thread is about to call before the operation
-- is cancelled, a cancelled operation is inactive, and a canceller that is set while the
-- operation is cancelled has been called or is about to be tested or called.
pub Reach-IsSound : {t : System} → Reach initial t → IsSound t
Reach-IsSound here = initial-IsSound
Reach-IsSound (next r st) = Step-IsSound st (Reach-IsSound r)
