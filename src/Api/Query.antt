-- ===== src/Api/Query.antt =====
-- The handler of /v1/query in internal/api/server.go: reads, writes, and the writes to the
-- destination of a migration. What a database answers is an argument. The goroutines of a dual
-- write are values that the handler returns, in their order, and `run_secondary` runs one.
use pg_shard_router.Api.{
  Server, QueryRequest, Response, bad_body, missing_parameter, query_failed, write_failed,
  values_failed, iteration_failed, unavailable, queried, replied, panicked, write_error,
  write_router_error, count_error, count_request,
}
use pg_shard_router.Base.{
  ℕ, Bool, true, false, Option, none, some, List, [], ◌∷◌, ◌==◌, map, if◌then◌else◌,
}
use pg_shard_router.Base.Bytes.{Bytes, bytes_eq}
use pg_shard_router.Base.Int.{ℤ}
use pg_shard_router.Base.Result.{ok, err}
use pg_shard_router.Breaker
use pg_shard_router.Hashing.{ShardKey}
use pg_shard_router.Model.{ShardDef, parse_read_consistency}
use pg_shard_router.Pool.{Manager}
use pg_shard_router.Pool.Acquire.{Env, PoolError, acquire}
use pg_shard_router.Router.{Resolved, resolve, primary_write_shard, read_endpoint}

-- A row set: the names of the columns, each row's values where they can be read, and whether the
-- iteration ended with an error.
pub record Rows : Type 0 where
  pub columns : List Bytes
  pub values : List (Option (List Bytes))
  pub broken : Bool

-- What the databases answer: by the pool, the statement and its arguments.
pub record Database : Type 0 where
  pub query : ℕ → Bytes → List Bytes → Option Rows
  pub exec : ℕ → Bytes → List Bytes → Option ℤ

write_pool_error : Bytes → PoolError → Response
write_pool_error shard_id e = write_error 503 (unavailable shard_id e)

-- The loop over `rows.Next()`.
read_rows : List (Option (List Bytes)) → Option (List (List Bytes))
read_rows [] = some []
read_rows (none ∷ rows) = none
read_rows (some vals ∷ rows) = elim (read_rows rows) [ none ↦ none | some out ↦ some (vals ∷ out) ]

-- What the handler answers with the rows of a query.
unfoldable pub rows_response : Resolved → Option Rows → Response
unfolding read_rows
rows_response res none = write_error 502 query_failed
rows_response res (some rows) = elim (read_rows rows.values) [
  | none ↦ write_error 502 values_failed
  | some out ↦
      if rows.broken
      then write_error 502 iteration_failed
      else replied 200 (
          queried (record {
            bucket_id = res.bucket_id;
            shard_id = res.read_shard.shard_id;
            columns = rows.columns;
            rows = out;
            rows_affected = ℤ.pos 0;
          }))
]

-- The server after an attempt to get a connection.
abbrev with_pools : Server → Breaker.Registry × Manager → Server
with_pools s (b, m) = record s { breakers = b; pool = m }

unfoldable pub handle_read : Env → Database → Resolved → QueryRequest → Server → Server × Response
unfolding write_pool_error
handle_read env db res req s =
    let ep = read_endpoint (parse_read_consistency req.consistency) res in
    let (st, p) = acquire env res.read_shard ep (s.breakers, s.pool) in
    elim p [
      | err e ↦ (with_pools s st, write_pool_error res.read_shard.shard_id e)
      | ok conn ↦ (with_pools s st, rows_response res (db.query conn req.sql req.args))
    ]

-- A goroutine that writes to the destination of a migration.
pub record Secondary : Type 0 where
  pub shard : ShardDef
  pub sql : Bytes
  pub args : List Bytes

abbrev pub secondary_of : QueryRequest → ShardDef → Secondary
secondary_of req shard = record { shard = shard; sql = req.sql; args = req.args }

-- A goroutine for each of `res.WriteShards[1:]`.
abbrev pub secondaries : QueryRequest → List ShardDef → List Secondary
secondaries req [] = []
secondaries req (w ∷ ws) = map (secondary_of req) ws

-- What follows the statement on the primary.
unfoldable pub wrote : Resolved → ShardDef → QueryRequest → Option ℤ → Response × List Secondary
wrote res primary req none = (write_error 502 write_failed, [])
wrote res primary req (some n) = (
  replied 200 (
      queried (record {
        bucket_id = res.bucket_id;
        shard_id = primary.shard_id;
        columns = [];
        rows = [];
        rows_affected = n;
      })),
  secondaries req res.write_shards,
)

unfoldable pub handle_write :
    Env → Database → Resolved → QueryRequest → Server → Server × (Response × List Secondary)
unfolding write_pool_error wrote
handle_write env db res req s = elim (primary_write_shard res) [
  | none ↦ (s, (panicked, []))
  | some primary ↦
      let (st, p) = acquire env primary primary.writer (s.breakers, s.pool) in
      elim p [
        | err e ↦ (with_pools s st, (write_pool_error primary.shard_id e, []))
        | ok conn ↦ (with_pools s st, wrote res primary req (db.exec conn req.sql req.args))
      ]
]

-- One of the goroutines; the result is whether the statement ran, which is only logged.
unfoldable pub run_secondary : Env → Database → Secondary → Server → Server × Bool
run_secondary env db task s =
    let (st, p) = acquire env task.shard task.shard.writer (s.breakers, s.pool) in
    elim p [
      | err e ↦ (with_pools s st, false)
      | ok conn ↦
          (with_pools s st, elim (db.exec conn task.sql task.args) [ none ↦ false | some _ ↦ true ])
    ]

-- The part after the request was decoded and has a key.
unfoldable pub serve_query :
    Env → Database → ShardKey → QueryRequest → Server → Server × (Response × List Secondary)
unfolding handle_read handle_write write_router_error
serve_query env db key req s = elim (resolve key s.router) [
  | err e ↦ (count_error s, (write_router_error e, []))
  | ok res ↦
      if req.write
      then handle_write env db res req (count_request res s)
      else let (s', resp) = handle_read env db res req (count_request res s) in (s', (resp, []))
]

-- A request that cannot be decoded is none.
unfoldable pub handle_query :
    Env → Database → Option QueryRequest → Server → Server × (Response × List Secondary)
unfolding serve_query
handle_query env db none s = (s, (write_error 400 bad_body, []))
handle_query env db (some req) s = elim req.shard_key [
  | none ↦ (s, (write_error 400 missing_parameter, []))
  | some key ↦
      if req.sql == []
      then (s, (write_error 400 missing_parameter, []))
      else serve_query env db key req s
]
