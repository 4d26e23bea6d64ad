-- ===== src/Breaker/Calls.antt =====
-- A breaker as a machine: sequences of its methods' calls, in the order in which they take the mutex.
use pg_shard_router.Base.{ℕ, List, [], ◌∷◌, ◌++◌, ◌≡◌, refl}
use pg_shard_router.Breaker.{Breaker, allow, success, failure}

pub data Call : Type 0 where
  allows : ℕ → Call
  succeeds : Call
  fails : ℕ → Call

unfoldable pub step : Breaker → Call → Breaker
step b (allows now) = (allow now b).0
step b succeeds = success b
step b (fails now) = failure now b

unfoldable pub run : Breaker → List Call → Breaker
unfolding step
run b [] = b
run b (c ∷ cs) = run (step b c) cs

pub run-append : (b : Breaker) (cs ds : List Call) → run b (cs ++ ds) ≡ run (run b cs) ds
unfolding run
run-append b [] ds = refl
run-append b (c ∷ cs) ds = run-append (step b c) cs ds
