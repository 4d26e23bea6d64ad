-- ===== src/Pool/Tests.antt =====
-- The theorems on pools at concrete inputs.
use mathlib.Core.List.{Perm}
use pg_shard_router.Base.{Bool, true, none, some, List, [], ◌∷◌, ◌++◌, ◌≡◌, refl}
use pg_shard_router.Base.Bytes.{Bytes, codes, bytes_eq, bytes_beq, decimal_int}
use pg_shard_router.Base.Dict.{get, put}
use pg_shard_router.Base.Int.{pos}
use pg_shard_router.Base.Result.{ok, err}
use pg_shard_router.Breaker.{Registry, new, new_registry, open_, allow, err_open}
use pg_shard_router.Breaker.Shards.{breaker_of}
use pg_shard_router.Model.{Endpoint, ShardDef, shard_active}
use pg_shard_router.Pool.{new_manager, find_pool, install, reap_once, close}
use pg_shard_router.Pool.Ownership.{
  Op, finds, installs, reaps, closes, run, created, owned, run-Perm,
}
use pg_shard_router.Pool.Acquire.{Env, acquire, dsn}
use pg_shard_router.Pool.Acquire.Outcomes.{acquire_reports}

abbrev key : Bytes
key = codes "shard-01|db:5432/app"

-- Two goroutines create a pool for one key, and the loop reaps the one that was installed.
abbrev race : List Op
race = finds key 1 ∷ finds key 2 ∷ installs key 7 3 ∷ installs key 8 4 ∷ reaps 10 20 ∷ closes ∷ []

raced : (run new_manager race).closed ≡ 7 ∷ 8 ∷ []
unfolding run get put close reap_once install find_pool bytes_beq
raced = refl

run-Perm_example : Perm (owned (run new_manager race)) (owned new_manager ++ created race)
run-Perm_example = run-Perm new_manager race

abbrev primary : Endpoint
primary = record { host = codes "db"; port = pos 5432; database = codes "app" }

abbrev shard : ShardDef
shard = record {
  shard_id = codes "shard-01";
  status = shard_active;
  writer = primary;
  reader = none;
  credential_ref = codes "secret/payment/postgresql";
  region = [];
}

abbrev env : Env
env = record {
  provider = λ ref. some (record { username = codes "u"; password = codes "p" });
  parses = λ s. true;
  creates = some 7;
  connects = λ p. Bool.false;
  asked_at = 10;
  found_at = 11;
  installed_at = 12;
  failed_at = 13;
}

connection_string :
    dsn (record { username = codes "u"; password = codes "p" }) primary
    ≡ codes "postgres://u:p@db:5432/app"
unfolding dsn decimal_int
connection_string = refl

abbrev tripped : Registry
tripped = record {
  breakers =
      (codes "shard-01", record new { state = open_; consecutive_fails = pos 5; opened_at = 6 })
      ∷ [];
}

refused : (allow 10 (breaker_of (codes "shard-01") tripped)).1 ≡ err err_open
unfolding allow get bytes_beq
refused = refl

admitted : (allow 10 (breaker_of (codes "shard-01") new_registry)).1 ≡ ok tt
unfolding allow get bytes_beq
admitted = refl

acquire_reports_example :
    breaker_of (codes "shard-02") (acquire env shard primary (new_registry, new_manager)).0.0 ≡ new
unfolding bytes_beq get
acquire_reports_example =
    acquire_reports env shard primary new_registry new_manager admitted (codes "shard-02")
