-- ===== src/Api/Writes.antt =====
-- Which shards a query writes to, and what.
use pg_shard_router.Api.{
  Server, QueryRequest, Response, Body, replied, queried, panicked, count_request,
  write_router_error,
}
use pg_shard_router.Api.Query.{
  Database, Secondary, secondaries, secondary_of, handle_read, handle_write, handle_query,
  serve_query, wrote, Rows, rows_response,
}
use pg_shard_router.Base.{
  ℕ, true, Option, none, some, List, [], ◌∷◌, ◌≡◌, ◌≢◌, refl, arith, map, ap, sym, ◌∙◌, ◌⊎◌, inl,
  inr, Option-cases, Bool-cases, ◌==◌,
}
use pg_shard_router.Base.Bytes.{bytes_eq, bytes_beq_iff}
use pg_shard_router.Base.Int.{ℤ, int_eq}
use pg_shard_router.Base.Result.{ok, Result-cases}
use pg_shard_router.Base.Dict.{get}
use pg_shard_router.Cache.{Mapping, load}
use pg_shard_router.Hashing.{ShardKey, bucket_for}
use pg_shard_router.Model.{ShardDef, BucketDef, parse_read_consistency}
use pg_shard_router.Pool.Acquire.{Env, acquire}
use pg_shard_router.Router.Safety.{primary_write_shard-resolve}
use pg_shard_router.Router.{
  Router, Resolved, resolve, primary_write_shard, read_endpoint, RouteError, no_mapping,
  shard_unavailable, unknown_bucket, unknown_shard,
}

-- The answer to a statement that ran on the primary, and returned `n`.
abbrev pub primary_wrote : Resolved → ℤ → Body
primary_wrote res n = queried (record {
  bucket_id = res.bucket_id;
  shard_id = res.read_shard.shard_id;
  columns = [];
  rows = [];
  rows_affected = n;
})

-- The statement of a request, for a shard.
abbrev pub statement_for : QueryRequest → ShardDef → Secondary
statement_for req shard = record { shard = shard; sql = req.sql; args = req.args }

-- The database of the primary ran the statement.
pub record Ran (env : Env) (db : Database) (res : Resolved) (req : QueryRequest) (s : Server)
    (body : Body) : Type 0 where
  pub conn : ℕ
  pub affected : ℤ
  pub got : (acquire env res.read_shard res.read_shard.writer (s.breakers, s.pool)).1 ≡ ok conn
  pub ran : db.exec conn req.sql req.args ≡ some affected
  pub told : body ≡ primary_wrote res affected

-- What may follow the statement on the primary.
record IsOrdered (env : Env) (db : Database) (res : Resolved) (req : QueryRequest) (s : Server)
    (r : Response × List Secondary) : Type 0 where
  calm : r.0 ≢ panicked
  done :
      (body : Body)
      → r.0 ≡ replied 200 body
      → Ran env db res req s body × (r.1 ≡ secondaries req res.write_shards)
  failed : (status : ℕ) (body : Body) → r.0 ≡ replied status body → status ≢ 200 → r.1 ≡ []

body_eq : (a b : Body) (n : ℕ) → replied n a ≡ replied 200 b → a ≡ b
body_eq a b n e = cc

wrote-IsOrdered :
    (env : Env) (db : Database) (res : Resolved) (req : QueryRequest) (s : Server) (conn : ℕ)
    → (acquire env res.read_shard res.read_shard.writer (s.breakers, s.pool)).1 ≡ ok conn
    → (o : Option ℤ) → db.exec conn req.sql req.args ≡ o
    → IsOrdered env db res req s (wrote res res.read_shard req o)
unfolding wrote
wrote-IsOrdered env db res req s conn got none e = record {
  calm = λ x. cc;
  done = λ body x. absurd (ground (arith, x));
  failed = λ status body x ne. refl;
}
wrote-IsOrdered env db res req s conn got (some n) e = record {
  calm = λ x. cc;
  done = λ body x. (
    record {
      conn = conn;
      affected = n;
      got = got;
      ran = e;
      told = sym (body_eq (primary_wrote res n) body 200 x);
    },
    refl,
  );
  failed = λ status body x ne. ground arith;
}

handle_write-IsOrdered :
    (env : Env) (db : Database) (res : Resolved) (req : QueryRequest) (s : Server)
    → primary_write_shard res ≡ some res.read_shard
    → IsOrdered env db res req s (handle_write env db res req s).1
unfolding handle_write
handle_write-IsOrdered env db res req s known =
    elim (Result-cases (acquire env res.read_shard res.read_shard.writer (s.breakers, s.pool)).1) [
      | inl (conn, got) ↦
          rw (known, got, handle_write)
            (wrote-IsOrdered env db res req s conn got (db.exec conn req.sql req.args) refl)
      | inr (e, refused) ↦
          rw (known, refused, handle_write)
            (record {
              calm = λ x. cc;
              done = λ body x. absurd (ground (arith, x));
              failed = λ status body x ne. refl;
            })
    ]

-- A successful answer has a map and the bucket behind it.
resolve-inv :
    (key : ShardKey) (r : Router) (res : Resolved)
    → resolve key r ≡ ok res
    → (m : Mapping) × (load r.store ≡ some m)
      × (b : BucketDef) × (get (bucket_for key r.bucket_count) m.buckets ≡ some b)
unfolding resolve
resolve-inv key r res h = elim (Option-cases (load r.store)) [
  | inl unloaded ↦ absurd (ground (arith, unloaded))
  | inr (m, loaded) ↦ elim (Option-cases (get (bucket_for key r.bucket_count) m.buckets)) [
    | inl unassigned ↦ absurd (ground (arith, loaded, unassigned))
    | inr (b, assigned) ↦ (m, loaded, b, assigned)
  ]
]

resolve-primary :
    (key : ShardKey) (r : Router) (res : Resolved)
    → resolve key r ≡ ok res
    → primary_write_shard res ≡ some res.read_shard
resolve-primary key r res h =
    let (m, loaded, b, assigned) = resolve-inv key r res h in
    primary_write_shard-resolve key r loaded assigned res h

List-cases {ℓ} : {A : Type ℓ} (xs : List A) → (xs ≡ []) ⊎ ((x : A) × (ys : List A) × (xs ≡ x ∷ ys))
List-cases [] = inl refl
List-cases (x ∷ xs) = inr (x, xs, refl)

map-statements :
    (req : QueryRequest) (ws : List ShardDef)
    → map (secondary_of req) ws ≡ map (statement_for req) ws
map-statements req ws = refl

-- The statement on the primary, and those of the goroutines.
secondaries-statements :
    (req : QueryRequest) (res : Resolved)
    → primary_write_shard res ≡ some res.read_shard
    → statement_for req res.read_shard ∷ secondaries req res.write_shards
      ≡ map (statement_for req) res.write_shards
unfolding primary_write_shard
secondaries-statements req res h = elim (List-cases res.write_shards) [
  | inl empty ↦ absurd (ground (arith, empty))
  | inr (w, ws, first) ↦
      let same : res.read_shard ≡ w = ground (arith, first) in
      rw (first, same, map-statements req ws) refl
]

serve_query-ok :
    (env : Env) (db : Database) (key : ShardKey) (req : QueryRequest) (s : Server) (res : Resolved)
    → resolve key s.router ≡ ok res
    → req.write ≡ true
    → serve_query env db key req s ≡ handle_write env db res req (count_request res s)
unfolding serve_query
serve_query-ok env db key req s res answered writes = rw (answered, writes, serve_query)

pub write_router_error-calm : (e : RouteError) → write_router_error e ≢ panicked
unfolding write_router_error
write_router_error-calm no_mapping x = cc
write_router_error-calm (shard_unavailable id) x = cc
write_router_error-calm (unknown_bucket i) x = cc
write_router_error-calm (unknown_shard id i) x = cc

rows_response-calm : (res : Resolved) (o : Option Rows) → rows_response res o ≢ panicked
unfolding rows_response
rows_response-calm res none x = cc
rows_response-calm res (some rows) x = ground (arith, x)

handle_read-calm :
    (env : Env) (db : Database) (res : Resolved) (req : QueryRequest) (s : Server)
    → (handle_read env db res req s).1 ≢ panicked
unfolding handle_read
handle_read-calm env db res req s =
    let got =
      acquire env res.read_shard (read_endpoint (parse_read_consistency req.consistency) res)
        (s.breakers, s.pool) in
    elim (Result-cases got.1) [
      | inl (conn, e) ↦
          rw (e, handle_read) (rows_response-calm res (db.query conn req.sql req.args))
      | inr (e, refused) ↦ rw (refused, handle_read) (λ x. cc)
    ]

serve_query-calm :
    (env : Env) (db : Database) (key : ShardKey) (req : QueryRequest) (s : Server)
    → (serve_query env db key req s).1.0 ≢ panicked
unfolding serve_query
serve_query-calm env db key req s = elim (Result-cases (resolve key s.router)) [
  | inr (e, failed) ↦ rw (failed, serve_query) (write_router_error-calm e)
  | inl (res, answered) ↦ elim (Bool-cases req.write) [
    | inl writes ↦
        rw (serve_query-ok env db key req s res answered writes)
          (handle_write-IsOrdered env db res req (count_request res s)
            (resolve-primary key s.router res answered)).calm
    | inr reads ↦
        rw (answered, reads, serve_query) (handle_read-calm env db res req (count_request res s))
  ]
]

-- No request makes the handler panic, whatever the maps, the breakers and the databases: the
-- first of the write shards is there whenever it is taken.
pub handle_query-calm :
    (env : Env) (db : Database) (req : Option QueryRequest) (s : Server)
    → (handle_query env db req s).1.0 ≢ panicked
unfolding handle_query
handle_query-calm env db none s = λ x. cc
handle_query-calm env db (some req) s = elim (Option-cases req.shard_key) [
  | inl unnamed ↦ rw (unnamed, handle_query) (λ x. cc)
  | inr (key, named) ↦ elim (Bool-cases (req.sql == [])) [
    | inl empty ↦ rw (named, empty, handle_query) (λ x. cc)
    | inr asked ↦ rw (named, asked, handle_query) (serve_query-calm env db key req s)
  ]
]

pub handle_query-serve :
    (env : Env) (db : Database) (key : ShardKey) (req : QueryRequest) (s : Server)
    → req.shard_key ≡ some key
    → req.sql ≢ []
    → handle_query env db (some req) s ≡ serve_query env db key req s
unfolding handle_query
handle_query-serve env db key req s named asked = ground (arith, named, bytes_beq_iff req.sql [])

-- A write request with a key and a statement that is routed. With an answer 200, the database of the shard that serves the
-- reads ran the statement of the request, with its arguments, on a connection that was acquired for that shard's writer,
-- and the answer tells the number of rows that it returned; and this statement and then those of the goroutines
-- are the request's statement with its arguments for each of the write shards of the bucket, in order.
-- With any other answer no goroutine is started.
pub handle_query-writes :
    (env : Env) (db : Database) (key : ShardKey) (req : QueryRequest) (s : Server) (res : Resolved)
    → req.shard_key ≡ some key
    → req.sql ≢ []
    → req.write ≡ true
    → resolve key s.router ≡ ok res
    → let r = (handle_query env db (some req) s).1 in
      ((body : Body)
        → r.0 ≡ replied 200 body
        → Ran env db res req s body
          × (statement_for req res.read_shard ∷ r.1 ≡ map (statement_for req) res.write_shards))
      × ((status : ℕ) (body : Body) → r.0 ≡ replied status body → status ≢ 200 → r.1 ≡ [])
handle_query-writes env db key req s res named asked writes answered =
    let primary = resolve-primary key s.router res answered in
    let ordered = handle_write-IsOrdered env db res req (count_request res s) primary in
    rw
      (
        handle_query-serve env db key req s named asked,
        serve_query-ok env db key req s res answered writes,
      )
      (
        λ body e.
            let (ran, tasks) = ordered.done body e in
            (
              record {
                conn = ran.conn;
                affected = ran.affected;
                got = ran.got;
                ran = ran.ran;
                told = ran.told;
              },
              ap (λ ts. statement_for req res.read_shard ∷ ts) tasks
                  ∙ secondaries-statements req res primary,
            ),
        ordered.failed,
      )
