-- ===== src/Api/Dispatch/Calm.antt =====
-- No request breaks the server or its router.
use pg_shard_router.Api.{
  Server, QueryRequest, Response, panicked, handle_health, handle_route, count_request,
}
use pg_shard_router.Api.Dispatch.{
  HttpRequest, Reply, Handler, health, route, query, metrics, answered, handle, serve_http,
  find_handler, has_path, routes,
}
use pg_shard_router.Api.Query.{Database, handle_read, handle_write, handle_query, serve_query}
use pg_shard_router.Api.Writes.{handle_query-calm, write_router_error-calm}
use pg_shard_router.Base.{
  none, some, Option, [], ◌≡◌, ◌≢◌, refl, inl, inr, ◌==◌, Bool-cases, Option-cases,
}
use pg_shard_router.Base.Bytes.{Bytes, codes, bytes_eq}
use pg_shard_router.Base.Result.{Result-cases}
use pg_shard_router.Hashing.{ShardKey, text}
use pg_shard_router.Model.{parse_read_consistency}
use pg_shard_router.Pool.Acquire.{Env, acquire}
use pg_shard_router.Router.{Resolved, resolve, primary_write_shard, read_endpoint}

module _ (env : Env) (db : Database) (req : QueryRequest) where
  handle_read-router :
      (res : Resolved) (s : Server) → (handle_read env db res req s).0.router ≡ s.router
  unfolding handle_read
  handle_read-router res s =
      let got =
        acquire env res.read_shard (read_endpoint (parse_read_consistency req.consistency) res)
          (s.breakers, s.pool) in
      elim (Result-cases got.1) [
        | inl (conn, e) ↦ rw (e, handle_read) refl
        | inr (e, refused) ↦ rw (refused, handle_read) refl
      ]

  handle_write-router :
      (res : Resolved) (s : Server) → (handle_write env db res req s).0.router ≡ s.router
  unfolding handle_write
  handle_write-router res s = elim (Option-cases (primary_write_shard res)) [
    | inl empty ↦ rw (empty, handle_write) refl
    | inr (primary, first) ↦
        elim (Result-cases (acquire env primary primary.writer (s.breakers, s.pool)).1) [
          | inl (conn, e) ↦ rw (first, e, handle_write) refl
          | inr (e, refused) ↦ rw (first, refused, handle_write) refl
        ]
  ]

  serve_query-router :
      (key : ShardKey) (s : Server) → (serve_query env db key req s).0.router ≡ s.router
  unfolding serve_query
  serve_query-router key s = elim (Result-cases (resolve key s.router)) [
    | inr (e, failed) ↦ rw (failed, serve_query) refl
    | inl (res, found) ↦ elim (Bool-cases req.write) [
      | inl writes ↦ rw (found, writes, serve_query) (handle_write-router res (count_request res s))
      | inr reads ↦ rw (found, reads, serve_query) (handle_read-router res (count_request res s))
    ]
  ]

handle_query-router :
    (env : Env) (db : Database) (req : Option QueryRequest) (s : Server)
    → (handle_query env db req s).0.router ≡ s.router
unfolding handle_query
handle_query-router env db none s = refl
handle_query-router env db (some req) s = elim (Option-cases req.shard_key) [
  | inl unnamed ↦ rw (unnamed, handle_query) refl
  | inr (key, named) ↦ elim (Bool-cases (req.sql == [])) [
    | inl empty ↦ rw (named, empty, handle_query) refl
    | inr asked ↦ rw (named, asked, handle_query) (serve_query-router env db req key s)
  ]
]

handle_route-calm :
    (key : Bytes) (s : Server)
    → ((handle_route key s).1 ≢ panicked) × ((handle_route key s).0.router ≡ s.router)
unfolding handle_route
handle_route-calm key s = elim (Bool-cases (key == [])) [
  | inl empty ↦ rw (empty, handle_route) (λ x. cc, refl)
  | inr given ↦ elim (Result-cases (resolve (text key) s.router)) [
    | inr (e, failed) ↦ rw (given, failed, handle_route) (write_router_error-calm e, refl)
    | inl (res, found) ↦ rw (given, found, handle_route) (λ x. cc, refl)
  ]
]

handle_health-calm : (s : Server) → handle_health s ≢ panicked
unfolding handle_health
handle_health-calm s =
    elim (Result-cases (resolve (text (codes "healthcheck-probe-key")) s.router)) [
      | inr (e, failed) ↦ rw (failed, handle_health) (λ x. cc)
      | inl (res, found) ↦ rw (found, handle_health) (λ x. cc)
    ]

-- The request did not make a handler panic, and resolves as before afterwards.
pub record IsCalm (s s' : Server) (reply : Reply) : Type 0 where
  pub no_panic : reply ≢ answered panicked
  pub router : s'.router ≡ s.router

answered-calm : (x : Response) → x ≢ panicked → answered x ≢ answered panicked
answered-calm x n e = n cc

module _ (quote : Bytes → Bytes) (env : Env) (db : Database) (r : HttpRequest) (s : Server) where
  handle-IsCalm :
      (h : Handler) → let (s', (reply, tasks)) = handle quote env db r s h in IsCalm s s' reply
  unfolding handle
  handle-IsCalm health = record {
    no_panic = answered-calm (handle_health s) (handle_health-calm s);
    router = refl;
  }
  handle-IsCalm route = record {
    no_panic = answered-calm _ (handle_route-calm r.shard_key s).0;
    router = (handle_route-calm r.shard_key s).1;
  }
  handle-IsCalm query = record {
    no_panic = answered-calm _ (handle_query-calm env db r.body s);
    router = handle_query-router env db r.body s;
  }
  handle-IsCalm metrics = record { no_panic = λ x. cc; router = refl }

  -- Whatever its method, path, parameter and body, and whatever the maps, the breakers, the pools and the
  -- databases: the handler that the request comes to does not panic, and the server that it leaves has the same
  -- router, and so the same map.
  pub serve_http-IsCalm :
      let (s', (reply, tasks)) = serve_http quote env db r s in IsCalm s s' reply
  unfolding serve_http
  serve_http-IsCalm = elim (Option-cases (find_handler r routes)) [
    | inr (h, found) ↦ rw (found, serve_http) (handle-IsCalm h)
    | inl missing ↦ elim (Bool-cases (has_path r routes)) [
      | inl known ↦ rw (missing, known, serve_http) (record { no_panic = λ x. cc; router = refl })
      | inr unknown ↦
          rw (missing, unknown, serve_http) (record { no_panic = λ x. cc; router = refl })
    ]
  ]
