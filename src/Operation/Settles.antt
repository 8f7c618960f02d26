-- ===== src/Operation/Settles.antt =====
-- Threads that are under way in server/lib/e2k-operation.c come to an end, and no cancellation is
-- lost on the way.
use evolution_exchange.Prelude.{◌≡◌, ◌∙◌, suc, refl, arith, ap}
use evolution_exchange.Prelude.{zero, suc}
use evolution_exchange.Operation.{given, invoke, ℕ, true}
use evolution_exchange.Operation.Steps.{
  System, Reach, initial, start_call, test, call, here, next, do_start_call, do_test, do_call,
}
use evolution_exchange.Operation.Invariant.{IsAnswered, IsSound, Reach-IsSound}

pub Reach-append : {s t u : System} → Reach s t → Reach t u → Reach s u
Reach-append r here = r
Reach-append r (next q st) = next (Reach-append r q) st

-- The run from s to u leaves the operation as it is.
abbrev Leads : System → System → Type 0
Leads s u = Reach s u × (u.world.op ≡ s.world.op)

Leads-append : {s t u : System} → Leads s t → Leads t u → Leads s u
Leads-append a b = (Reach-append a.0 b.0, b.1 ∙ a.1)

settle_tested :
    (n : ℕ) (s : System)
    → s.tested ≡ n
    → (u : System) × Leads s u × (u.tested ≡ 0) × (u.armed ≡ s.armed) × (u.starting ≡ s.starting)
unfolding invoke
settle_tested zero s e = (s, (here, refl), e, refl, refl)
settle_tested (suc n) s e =
    let (u, l, z, a, b) = settle_tested n (do_call n s) refl in
    (u, Leads-append (next here (call n e), refl) l, z, a, b)

settle_armed :
    (n : ℕ) (s : System)
    → s.armed ≡ n
    → (u : System) × Leads s u × (u.armed ≡ 0) × (u.starting ≡ s.starting)
settle_armed zero s e = (s, (here, refl), e, refl)
settle_armed (suc n) s e =
    let (u, l, a, b) = settle_armed n (do_test n s) refl in
    (u, Leads-append (next here (test n e), refl) l, a, b)

settle_starting :
    (n : ℕ) (s : System) → s.starting ≡ n → (u : System) × Leads s u × (u.starting ≡ 0)
unfolding invoke
settle_starting zero s e = (s, (here, refl), e)
settle_starting (suc n) s e =
    let (u, l, z) = settle_starting n (do_start_call n s) refl in
    (u, Leads-append (next here (start_call n e), refl) l, z)

-- No thread is between the lock and its call.
pub record IsSettled (s : System) : Type 0 where
  pub stopped : s.starting ≡ 0
  pub none_armed : s.armed ≡ 0
  pub none_tested : s.tested ≡ 0

settle : (s : System) → (u : System) × Leads s u × IsSettled u
settle s =
    let (t, l, a) = settle_starting s.starting s refl in
    let (u, m, b, c) = settle_armed t.armed t refl in
    let (v, n, d, e, f) = settle_tested u.tested u refl in
    (
      v,
      Leads-append l (Leads-append m n),
      record { stopped = f ∙ (c ∙ a); none_armed = e ∙ b; none_tested = d },
    )

settled-IsAnswered :
    (s : System)
    → IsSound s
    → IsSettled s
    → s.world.op.cancelled ≡ true
    → given s.world.op.canceller ≡ true
    → IsAnswered s.world.op s.world.calls
settled-IsAnswered s v q c g = ground arith

-- From every state that threads can reach, in which the operation is cancelled and has a
-- canceller, the calls that are under way can come to an end without a change of the operation,
-- and then that canceller has been called with its owner and its data.
pub Reach-IsAnswered :
    {s : System}
    → Reach initial s
    → s.world.op.cancelled ≡ true
    → given s.world.op.canceller ≡ true
    → (u : System) × Reach s u
      × (u.world.op ≡ s.world.op)
      × IsSettled u
      × IsAnswered u.world.op u.world.calls
Reach-IsAnswered {s} r c g =
    let (u, l, q) = settle s in
    (
      u,
      l.0,
      l.1,
      q,
      settled-IsAnswered u (Reach-IsSound (Reach-append r l.0)) q (ap (λ o. o.cancelled) l.1 ∙ c)
          (ap (λ o. given o.canceller) l.1 ∙ g),
    )
