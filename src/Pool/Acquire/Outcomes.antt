-- ===== src/Pool/Acquire/Outcomes.antt =====
-- What an attempt to get a connection leaves behind.
use pg_shard_router.Base.{ℕ, inl, inr, ◌≡◌, refl, arith, ◌==◌, if◌then◌else◌, Bool-cases}
use pg_shard_router.Base.Bytes.{Bytes, bytes_eq, bytes_beq_iff}
use pg_shard_router.Base.Dict.{get-put}
use pg_shard_router.Base.Result.{Result, ok, err}
use pg_shard_router.Breaker.{
  Breaker, Registry, new, allow, success, failure, for_shard, update, BreakerError,
}
use pg_shard_router.Breaker.Shards.{breaker_of, breaker_of-update}
use pg_shard_router.Model.{Endpoint, ShardDef}
use pg_shard_router.Pool.{Manager}
use pg_shard_router.Pool.Acquire.{Env, PoolError, circuit_open, pool_for, acquire, connect}

breaker_of-for_shard :
    (id j : Bytes) (r : Registry) → breaker_of j (for_shard id r).0 ≡ breaker_of j r
unfolding for_shard
breaker_of-for_shard id j r = ground (arith, get-put id j new r.breakers, bytes_beq_iff id j)

found : (id : Bytes) (r : Registry) → (for_shard id r).1 ≡ breaker_of id r
unfolding for_shard
found id r = ground arith

module _ (env : Env) (shard : ShardDef) (ep : Endpoint) (r : Registry) (m : Manager) where
  abbrev asked : Breaker
  asked = breaker_of shard.shard_id r

  -- What `Acquire` does after the breaker admitted the attempt.
  attempt : (Registry × Manager) × Result PoolError ℕ
  attempt =
      connect env shard.shard_id
        (update shard.shard_id (λ b. (allow env.asked_at b).0) (for_shard shard.shard_id r).0)
        (pool_for env shard ep m)

  acquire-err :
      {e : BreakerError}
      → (allow env.asked_at asked).1 ≡ err e
      → acquire env shard ep (r, m) ≡ (((for_shard shard.shard_id r).0, m), err circuit_open)
  unfolding acquire
  acquire-err refused = ground (arith, found shard.shard_id r, refused)

  acquire-ok : (allow env.asked_at asked).1 ≡ ok tt → acquire env shard ep (r, m) ≡ attempt
  unfolding acquire attempt
  acquire-ok admitted = ground (arith, found shard.shard_id r, admitted)

  -- An attempt that the breaker refuses fails at once: no pool is looked for or created, and
  -- every breaker is as it was.
  acquire_refused :
      {e : BreakerError}
      → (allow env.asked_at asked).1 ≡ err e
      → ((acquire env shard ep (r, m)).1 ≡ err circuit_open)
        × ((acquire env shard ep (r, m)).0.1 ≡ m)
        × ((j : Bytes) → breaker_of j (acquire env shard ep (r, m)).0.0 ≡ breaker_of j r)
  acquire_refused refused =
      rw (acquire-err refused) (refl, refl, λ j. breaker_of-for_shard shard.shard_id j r)

  told_twice :
      (f g : Breaker → Breaker) (j : Bytes)
      → breaker_of j
          (update shard.shard_id g (update shard.shard_id f (for_shard shard.shard_id r).0))
        ≡ (if shard.shard_id == j then g (f asked) else breaker_of j r)
  told_twice f g j = ground (
    arith,
    breaker_of-update shard.shard_id j g (update shard.shard_id f (for_shard shard.shard_id r).0),
    breaker_of-update shard.shard_id shard.shard_id f (for_shard shard.shard_id r).0,
    breaker_of-update shard.shard_id j f (for_shard shard.shard_id r).0,
    breaker_of-for_shard shard.shard_id shard.shard_id r,
    breaker_of-for_shard shard.shard_id j r,
    bytes_beq_iff shard.shard_id shard.shard_id,
  )

  -- What the breaker of the shard becomes with the outcome.
  abbrev told : Result PoolError ℕ → Breaker
  told (ok p) = success (allow env.asked_at asked).0
  told (err e) = failure env.failed_at (allow env.asked_at asked).0

  connect_reports :
      (r' : Registry) (p : Manager × Result PoolError ℕ) (j : Bytes)
      → r' ≡ update shard.shard_id (λ b. (allow env.asked_at b).0) (for_shard shard.shard_id r).0
      → breaker_of j (connect env shard.shard_id r' p).0.0
        ≡ (if shard.shard_id == j then told (connect env shard.shard_id r' p).1 else breaker_of j r)
  unfolding connect
  connect_reports r' (m', err e) j h =
      rw h (told_twice (λ b. (allow env.asked_at b).0) (failure env.failed_at) j)
  connect_reports r' (m', ok p) j h = elim (Bool-cases (env.connects p)) [
    | inl connected ↦ rw (h, connected) (told_twice (λ b. (allow env.asked_at b).0) success j)
    | inr refused ↦
        rw (h, refused) (told_twice (λ b. (allow env.asked_at b).0) (failure env.failed_at) j)
  ]

  -- An attempt that the breaker admits reports its outcome to that breaker, once, and to no other:
  -- a connection as a success, and any error, of the credentials, the configuration, the creation
  -- or the pool, as a failure.
  pub acquire_reports :
      (allow env.asked_at asked).1 ≡ ok tt
      → (j : Bytes)
      → breaker_of j (acquire env shard ep (r, m)).0.0
        ≡ (if shard.shard_id == j then told (acquire env shard ep (r, m)).1 else breaker_of j r)
  unfolding attempt
  acquire_reports admitted j =
      rw (acquire-ok admitted) (connect_reports _ (pool_for env shard ep m) j refl)
