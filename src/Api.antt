-- ===== src/Api.antt =====
-- internal/api/server.go: the handlers for routing and queries. The message of
-- an error is known by its cause; Query has the handler of queries, Page that of the metrics.
pub mod Query
pub mod Page
pub mod Counting
pub mod Writes
pub mod Health
pub mod Routes
pub mod Dispatch
mod Tests
use pg_shard_router.Base.{
  ℕ, Bool, true, false, Option, none, some, List, [], ◌∷◌, ◌==◌, ◌||◌, map, if◌then◌else◌,
}
use pg_shard_router.Base.Bytes.{Bytes, codes, bytes_eq}
use pg_shard_router.Base.Int.{ℤ}
use pg_shard_router.Base.Result.{Result, ok, err}
use pg_shard_router.Breaker
use pg_shard_router.Hashing.{ShardKey, text}
use pg_shard_router.Metrics
use pg_shard_router.Metrics.{inc_routing_request, inc_routing_error}
use pg_shard_router.Model.{ShardDef, MigrationState, endpoint_string, parse_read_consistency}
use pg_shard_router.Pool.{Manager}
use pg_shard_router.Pool.Acquire.{Env, PoolError, acquire}
use pg_shard_router.Router.{
  Router, RouteError, Resolved, resolve, primary_write_shard, read_endpoint, no_mapping,
  shard_unavailable, unknown_bucket, unknown_shard,
}

pub record Server : Type 0 where
  pub router : Router
  pub breakers : Breaker.Registry
  pub pool : Manager
  pub metrics : Metrics.Registry

pub record RouteResponse : Type 0 where
  pub bucket_id : ℤ
  pub read_shard_id : Bytes
  pub write_shard_ids : List Bytes
  pub migration_state : MigrationState
  pub writer_endpoint : Bytes
  pub reader_endpoint : Bytes

-- The values of arguments and of rows are known by their JSON texts.
pub record QueryRequest : Type 0 where
  pub shard_key : Option ShardKey
  pub sql : Bytes
  pub args : List Bytes
  pub consistency : Bytes
  pub write : Bool

pub record QueryResponse : Type 0 where
  pub bucket_id : ℤ
  pub shard_id : Bytes
  pub columns : List Bytes
  pub rows : List (List Bytes)
  pub rows_affected : ℤ

-- What the error message of an answer tells.
pub data Cause : Type 0 where
  bad_body missing_parameter query_failed write_failed values_failed iteration_failed : Cause
  routing : RouteError → Cause
  unavailable : Bytes → PoolError → Cause

pub data Body : Type 0 where
  healthy : Body
  not_ready : RouteError → Body
  routed : RouteResponse → Body
  queried : QueryResponse → Body
  error : Cause → Body

-- A status and a body, or a panic in the handler.
pub data Response : Type 0 where
  replied : ℕ → Body → Response
  panicked : Response

abbrev pub write_error : ℕ → Cause → Response
write_error status cause = replied status (error cause)

unfoldable pub write_router_error : RouteError → Response
write_router_error (shard_unavailable id) = write_error 503 (routing (shard_unavailable id))
write_router_error (unknown_bucket i) = write_error 500 (routing (unknown_bucket i))
write_router_error (unknown_shard id i) = write_error 500 (routing (unknown_shard id i))
write_router_error no_mapping = write_error 503 (routing no_mapping)

unfoldable pub handle_health : Server → Response
handle_health s = elim (resolve (text (codes "healthcheck-probe-key")) s.router) [
  | ok _ ↦ replied 200 healthy
  | err e ↦ replied 503 (not_ready e)
]

unfoldable pub route_response : Resolved → RouteResponse
route_response res = record {
  bucket_id = res.bucket_id;
  read_shard_id = res.read_shard.shard_id;
  write_shard_ids = map (λ (ws : ShardDef). ws.shard_id) res.write_shards;
  migration_state = res.migration_state;
  writer_endpoint = endpoint_string res.read_shard.writer;
  reader_endpoint = elim res.read_shard.reader [ none ↦ [] | some ep ↦ endpoint_string ep ];
}

abbrev pub count_error : Server → Server
count_error s = record s { metrics = inc_routing_error s.metrics }

abbrev pub count_request : Resolved → Server → Server
count_request res s = record s {
  metrics = inc_routing_request res.read_shard.shard_id res.bucket_id s.metrics;
}

unfoldable pub handle_route : Bytes → Server → Server × Response
unfolding write_router_error
handle_route shard_key s =
    if shard_key == []
    then (s, write_error 400 missing_parameter)
    else elim (resolve (text shard_key) s.router) [
      | err e ↦ (count_error s, write_router_error e)
      | ok res ↦ (count_request res s, replied 200 (routed (route_response res)))
    ]
