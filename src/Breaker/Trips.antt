-- ===== src/Breaker/Trips.antt =====
-- When a breaker opens.
use pg_shard_router.Base.{
  ℕ, suc, ◌+◌, ◌<◌, ◌≤◌, false, List, [], ◌∷◌, ◌++◌, ◌≡◌, ◌∙◌, ap, refl, arith, ltb, if◌then◌else◌,
}
use pg_shard_router.Base.Int.{pos, int_leb, max_int}
use pg_shard_router.Breaker.{Breaker, closed, open_, allow, success, failure}
use pg_shard_router.Breaker.Calls.{Call, allows, succeeds, fails, step, run, run-append}

-- A closed breaker has fewer failures in a row than its threshold.
pub record IsSound (b : Breaker) : Type 0 where
  pub positive : int_leb b.failure_threshold (pos 0) ≡ false
  pub below : b.state ≡ closed → int_leb b.failure_threshold b.consecutive_fails ≡ false

step-IsSound : (b : Breaker) (c : Call) → IsSound b → IsSound (step b c)
unfolding step allow success failure
step-IsSound b (allows now) s = ground (arith, s.below)
step-IsSound b succeeds s = ground arith
step-IsSound b (fails now) s = ground (arith, s.below)

-- Whatever the calls and their times, also when the counter wraps, a breaker that is closed has
-- fewer failures in a row than its threshold.
run-IsSound : (b : Breaker) (cs : List Call) → IsSound b → IsSound (run b cs)
unfolding run
run-IsSound b [] s = s
run-IsSound b (c ∷ cs) s = run-IsSound (step b c) cs (step-IsSound b c s)

-- The failures among the calls, where no call reports a success.
pub data Failures : List Call → ℕ → Type 0 where
  none_yet : Failures [] 0
  asked : {cs : List Call} {n : ℕ} (now : ℕ) → Failures cs n → Failures (allows now ∷ cs) n
  failed : {cs : List Call} {n : ℕ} (now : ℕ) → Failures cs n → Failures (fails now ∷ cs) (suc n)

step-allows : (b : Breaker) (now : ℕ) → b.state ≡ closed → step b (allows now) ≡ b
unfolding step allow
step-allows b now c = ground arith

step-fails_below :
    (b : Breaker) (now f k : ℕ)
    → b.state ≡ closed
    → b.consecutive_fails ≡ pos f
    → b.failure_threshold ≡ pos k
    → k ≤ max_int
    → f + 1 < k
    → step b (fails now) ≡ record b { consecutive_fails = pos (f + 1) }
unfolding step failure
step-fails_below b now f k c e t m h = ground arith

-- Below the threshold failures are counted, and nothing else changes.
counts :
    (b : Breaker) (f n k : ℕ) {cs : List Call}
    → Failures cs n
    → b.state ≡ closed
    → b.consecutive_fails ≡ pos f
    → b.failure_threshold ≡ pos k
    → k ≤ max_int
    → f + n < k
    → run b cs ≡ record b { consecutive_fails = pos (f + n) }
unfolding run
counts b f n k none_yet c e t m h = ground arith
counts b f n k (asked {cs} now rest) c e t m h =
    ap (λ x. run x cs) (step-allows b now c) ∙ counts b f n k rest c e t m h
counts b f _ k (failed {cs} {n} now rest) c e t m h =
    ap (λ x. run x cs) (step-fails_below b now f k c e t m (omega arith))
    ∙ counts (record b { consecutive_fails = pos (f + 1) }) (f + 1) n k rest c refl t m
        (omega arith)
    ∙ ap (λ (t : ℕ). record b { consecutive_fails = pos t }) (omega arith)

-- A closed breaker whose count is at zero trips exactly at its threshold: as long as fewer than
-- `k` failures and no success are reported, whatever is asked in between, it stays closed and
-- counts them, and the `k`-th failure opens it, at the time of that failure.
pub trips_at_threshold :
    (b : Breaker) (n k now : ℕ) {cs : List Call}
    → Failures cs n
    → b.state ≡ closed
    → b.consecutive_fails ≡ pos 0
    → b.failure_threshold ≡ pos k
    → k ≤ max_int
    → n < k
    → ((run b cs).state ≡ closed)
      × ((run b cs).consecutive_fails ≡ pos n)
      × ((run b (cs ++ fails now ∷ [])).state ≡ (if ltb (n + 1) k then closed else open_))
      × ((run b (cs ++ fails now ∷ [])).opened_at ≡ (if ltb (n + 1) k then b.opened_at else now))
trips_at_threshold b n k now {cs} f c e t m h =
    let counted : run b cs ≡ record b { consecutive_fails = pos n } =
      counts b 0 n k f c e t m (omega arith)
      ∙ ap (λ (t : ℕ). record b { consecutive_fails = pos t }) (omega arith) in
    rw (run-append b cs (fails now ∷ []), counted)
      (c, refl, unfold run step failure in ground arith, unfold run step failure in ground arith)
