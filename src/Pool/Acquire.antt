-- ===== src/Pool/Acquire.antt =====
-- `Acquire` and `poolFor` of internal/pool/manager.go, run without interruption; Ownership has the
-- interruptions. What lies outside is an argument: the secrets provider and the driver.
pub mod Outcomes
use pg_shard_router.Base.{ℕ, Bool, true, false, Option, none, some, [], ◌∷◌, ◌++◌, if◌then◌else◌}
use pg_shard_router.Base.Bytes.{Bytes, codes, decimal_int}
use pg_shard_router.Base.Result.{Result, ok, err}
use pg_shard_router.Breaker.{Registry, allow, success, failure, for_shard, update}
use pg_shard_router.Model.{Endpoint, ShardDef}
use pg_shard_router.Secrets.{Credentials}
use pg_shard_router.Pool.{Manager, pool_key, find_pool, install}

-- What an attempt meets: the provider's answer for a reference, whether the driver takes a
-- connection string, the pool that it creates, if it can, whether it gives a connection from a
-- pool, and the readings of the clock.
pub record Env : Type 0 where
  pub provider : Bytes → Option Credentials
  pub parses : Bytes → Bool
  pub creates : Option ℕ
  pub connects : ℕ → Bool
  pub asked_at : ℕ
  pub found_at : ℕ
  pub installed_at : ℕ
  pub failed_at : ℕ

pub data PoolError : Type 0 where
  circuit_open no_credentials bad_config not_created not_acquired : PoolError

-- `postgres://%s:%s@%s:%d/%s`
unfoldable pub dsn : Credentials → Endpoint → Bytes
dsn creds ep =
    codes "postgres://"
    ++ (creds.username
        ++ (b':'
            ∷ (creds.password
                ++ (b'@' ∷ (ep.host ++ (b':' ∷ (decimal_int ep.port ++ (b'/' ∷ ep.database))))))))

-- What `poolFor` does between its two sections under the mutex.
create_pool : Env → ShardDef → Endpoint → Result PoolError ℕ
create_pool env shard ep = elim (env.provider shard.credential_ref) [
  | none ↦ err no_credentials
  | some creds ↦
      if env.parses (dsn creds ep)
      then elim env.creates [ none ↦ err not_created | some p ↦ ok p ]
      else err bad_config
]

install_new : Env → Bytes → Manager → Result PoolError ℕ → Manager × Result PoolError ℕ
install_new env key m (err e) = (m, err e)
install_new env key m (ok new_pool) =
    let (m', p) = install key new_pool env.installed_at m in (m', ok p)

unfoldable pub pool_for : Env → ShardDef → Endpoint → Manager → Manager × Result PoolError ℕ
unfolding create_pool install_new
pool_for env shard ep m =
    let key = pool_key shard.shard_id ep in
    let (m', found) = find_pool key env.found_at m in
    elim found [ some p ↦ (m', ok p) | none ↦ install_new env key m' (create_pool env shard ep) ]

-- A connection from the pool, and what the breaker is told.
connect :
    Env
    → Bytes
    → Registry
    → Manager × Result PoolError ℕ
    → (Registry × Manager) × Result PoolError ℕ
connect env id r (m, err e) = ((update id (failure env.failed_at) r, m), err e)
connect env id r (m, ok p) =
    if env.connects p
    then ((update id success r, m), ok p)
    else ((update id (failure env.failed_at) r, m), err not_acquired)

-- `Acquire`; the result is the pool that the connection is from.
unfoldable pub acquire :
    Env → ShardDef → Endpoint → Registry × Manager → (Registry × Manager) × Result PoolError ℕ
unfolding connect
acquire env shard ep (r, m) =
    let id = shard.shard_id in
    let (r', b) = for_shard id r in
    elim (allow env.asked_at b).1 [
      | err _ ↦ ((r', m), err circuit_open)
      | ok _ ↦
          connect env id (update id (λ b. (allow env.asked_at b).0) r') (pool_for env shard ep m)
    ]
