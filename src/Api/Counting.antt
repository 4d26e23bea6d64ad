-- ===== src/Api/Counting.antt =====
-- What a query adds to the counters.
use pg_shard_router.Api.{Server, QueryRequest, count_request}
use pg_shard_router.Api.Query.{Database, handle_read, handle_write, handle_query, serve_query}
use pg_shard_router.Api.Writes.{handle_query-serve}
use pg_shard_router.Base.{
  some, [], ◌≡◌, ◌≢◌, refl, inl, inr, ◌==◌, Bool-cases, Option-cases, if◌then◌else◌,
}
use pg_shard_router.Base.Bytes.{Bytes, bytes_eq}
use pg_shard_router.Base.Int.{inc_int}
use pg_shard_router.Base.Result.{ok, err, Result-cases}
use pg_shard_router.Hashing.{ShardKey}
use pg_shard_router.Metrics.{inc_routing_request, inc_routing_error}
use pg_shard_router.Metrics.Counts.{count_of, count_of-inc_routing_request}
use pg_shard_router.Model.{parse_read_consistency}
use pg_shard_router.Pool.Acquire.{Env, acquire}
use pg_shard_router.Router.{Resolved, RouteError, resolve, primary_write_shard, read_endpoint}

module _ (env : Env) (db : Database) (req : QueryRequest) where
  handle_read-metrics :
      (res : Resolved) (s : Server) → (handle_read env db res req s).0.metrics ≡ s.metrics
  unfolding handle_read
  handle_read-metrics res s =
      let got =
        acquire env res.read_shard (read_endpoint (parse_read_consistency req.consistency) res)
          (s.breakers, s.pool) in
      elim (Result-cases got.1) [
        | inl (conn, e) ↦ rw (e, handle_read) refl
        | inr (e, refused) ↦ rw (refused, handle_read) refl
      ]

  handle_write-metrics :
      (res : Resolved) (s : Server) → (handle_write env db res req s).0.metrics ≡ s.metrics
  unfolding handle_write
  handle_write-metrics res s = elim (Option-cases (primary_write_shard res)) [
    | inl empty ↦ rw (empty, handle_write) refl
    | inr (primary, first) ↦
        elim (Result-cases (acquire env primary primary.writer (s.breakers, s.pool)).1) [
          | inl (conn, e) ↦ rw (first, e, handle_write) refl
          | inr (e, refused) ↦ rw (first, refused, handle_write) refl
        ]
  ]

  serve_query-metrics :
      (key : ShardKey) (s : Server) (res : Resolved)
      → resolve key s.router ≡ ok res
      → (serve_query env db key req s).0.metrics
        ≡ inc_routing_request res.read_shard.shard_id res.bucket_id s.metrics
  unfolding serve_query
  serve_query-metrics key s res answered = elim (Bool-cases req.write) [
    | inl writes ↦
        rw (answered, writes, serve_query) (handle_write-metrics res (count_request res s))
    | inr reads ↦ rw (answered, reads, serve_query) (handle_read-metrics res (count_request res s))
  ]

  serve_query-failed :
      (key : ShardKey) (s : Server) (e : RouteError)
      → resolve key s.router ≡ err e
      → (serve_query env db key req s).0.metrics ≡ inc_routing_error s.metrics
  unfolding serve_query
  serve_query-failed key s e failed = rw (failed, serve_query) refl

  -- A query with a key and a statement is counted once, whether or not the databases then serve it.
  -- If it is routed, the counter of the shard that serves the bucket's reads goes up by one, and
  -- no other; if not, the counter of routing errors goes up by one, and no shard's.
  pub handle_query-counts :
      (key : ShardKey) (s : Server)
      → req.shard_key ≡ some key
      → req.sql ≢ []
      → let after = (handle_query env db (some req) s).0.metrics in
        ((res : Resolved)
          → resolve key s.router ≡ ok res
          → ((j : Bytes)
              → count_of j after ≡ (
                  if res.read_shard.shard_id == j
                  then inc_int (count_of j s.metrics)
                  else count_of j s.metrics))
            × (after.routing_errors ≡ s.metrics.routing_errors))
        × ((e : RouteError)
            → resolve key s.router ≡ err e
            → ((j : Bytes) → count_of j after ≡ count_of j s.metrics)
              × (after.routing_errors ≡ inc_int s.metrics.routing_errors))
  unfolding inc_routing_request inc_routing_error
  handle_query-counts key s named asked = rw (handle_query-serve env db key req s named asked) (
    λ res answered.
        rw (serve_query-metrics key s res answered) (
          λ j. count_of-inc_routing_request res.read_shard.shard_id j res.bucket_id s.metrics,
          refl,
        ),
    λ e failed. rw (serve_query-failed key s e failed) (λ j. refl, refl),
  )
