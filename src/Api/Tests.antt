-- ===== src/Api/Tests.antt =====
-- The theorems on the handlers at concrete inputs.
use pg_shard_router.Api.{
  Server, RouteResponse, QueryRequest, Body, queried, replied, healthy, handle_health, handle_route,
  route_response,
}
use pg_shard_router.Api.Query.{Database, handle_query, serve_query, handle_write, wrote}
use pg_shard_router.Api.Counting.{handle_query-counts}
use pg_shard_router.Api.Health.{probe, handle_health-Answers}
use pg_shard_router.Api.Routes.{Reports, reader_text, handle_route-Answers}
use pg_shard_router.Api.Writes.{Ran, statement_for, handle_query-writes}
use pg_shard_router.Api.Dispatch.{
  HttpRequest, health, not_found, not_allowed, find_handler, has_path, routes, serve_http,
}
use pg_shard_router.Api.Dispatch.Calm.{IsCalm, serve_http-IsCalm}
use pg_shard_router.Base.{true, none, some, [], ◌∷◌, ◌++◌, ◌≡◌, ◌≢◌, refl, arith, String}
use pg_shard_router.Base.Bytes.{Bytes, codes, bytes_eq, bytes_beq, bytes_beq_iff}
use pg_shard_router.Base.Dict.{get}
use pg_shard_router.Base.Int.{pos, int_eq}
use pg_shard_router.Base.Result.{ok}
use pg_shard_router.Breaker.{new_registry, allow, for_shard}
use pg_shard_router.Cache.{Mapping, load}
use pg_shard_router.Hashing.{ShardKey, text, bucket_for}
use pg_shard_router.Hashing.Sha256.{sum256}
use pg_shard_router.Metrics
use pg_shard_router.Metrics.Counts.{count_of}
use pg_shard_router.Model.{
  endpoint_string, Endpoint, ShardDef, BucketDef, shard_active, state_dual_write,
}
use pg_shard_router.Pool.{new_manager, find_pool}
use pg_shard_router.Pool.Acquire.{Env, acquire, pool_for}
use pg_shard_router.Router.{Resolved, resolve, primary_write_shard}
use pg_shard_router.Router.Refines.{resolve-eq-ok}

abbrev endpoint : Bytes → Endpoint
endpoint h = record { host = h; port = pos 6432; database = codes "payment" }

abbrev shard : String → ShardDef
shard id = record {
  shard_id = codes id;
  status = shard_active;
  writer = endpoint (codes id ++ codes "-rw");
  reader = none;
  credential_ref = codes "secret/payment/postgresql";
  region = [];
}

abbrev bucket : BucketDef
bucket = record {
  bucket_id = pos 0;
  shard_id = codes "shard-01";
  dest_shard_id = codes "shard-05";
  state = state_dual_write;
  mapping_version = pos 0;
}

abbrev mapping : Mapping
mapping = record {
  revision = pos 1;
  shards = (codes "shard-01", shard "shard-01") ∷ (codes "shard-05", shard "shard-05") ∷ [];
  buckets = (pos 0, bucket) ∷ [];
}

-- One bucket, so that every key goes to it.
abbrev server : Server
server = record {
  router = record { store = record { ptr = some mapping }; bucket_count = pos 1 };
  breakers = new_registry;
  pool = new_manager;
  metrics = Metrics.new_registry;
}

abbrev env : Env
env = record {
  provider = λ ref. some (record { username = codes "u"; password = codes "p" });
  parses = λ s. true;
  creates = some 7;
  connects = λ p. true;
  asked_at = 10;
  found_at = 11;
  installed_at = 12;
  failed_at = 13;
}

abbrev db : Database
db = record { query = λ p sql args. none; exec = λ p sql args. some (pos 1) }

abbrev key : ShardKey
key = text (codes "tenant-1")

abbrev request : QueryRequest
request = record {
  shard_key = some key;
  sql = codes "UPDATE t SET x = 1";
  args = [];
  consistency = [];
  write = true;
}

abbrev routed : Resolved
routed = record {
  bucket_id = pos 0;
  read_shard = shard "shard-01";
  write_shards = shard "shard-01" ∷ shard "shard-05" ∷ [];
  migration_state = state_dual_write;
}

key_answer : resolve key server.router ≡ ok routed
unfolding resolve bucket_for sum256 get bytes_beq
key_answer = refl

has_sql : request.sql ≢ []
unfolding bytes_beq
has_sql = ground (arith, bytes_beq_iff request.sql [])

abbrev body : Body
body = queried (record {
  bucket_id = pos 0;
  shard_id = codes "shard-01";
  columns = [];
  rows = [];
  rows_affected = pos 1;
})

written : (handle_query env db (some request) server).1.0 ≡ replied 200 body
unfolding handle_query serve_query handle_write wrote resolve bucket_for sum256 get bytes_beq
    primary_write_shard acquire allow for_shard pool_for find_pool
written = refl

handle_query-writes_example :
    Ran env db routed request server body
    × (statement_for request (shard "shard-01") ∷ (handle_query env db (some request) server).1.1
        ≡ statement_for request (shard "shard-01") ∷ statement_for request (shard "shard-05") ∷ [])
handle_query-writes_example =
    (handle_query-writes env db key request server routed refl has_sql refl key_answer).0 body
      written

-- A query that is posted.
abbrev posted : HttpRequest
posted = record {
  method = codes "POST";
  path = codes "/v1/query";
  shard_key = [];
  body = some request;
}

serve_http-IsCalm_example :
    let (s', (reply, tasks)) = serve_http (λ b. b) env db posted server in IsCalm server s' reply
serve_http-IsCalm_example = serve_http-IsCalm (λ b. b) env db posted server

-- HEAD is taken as GET, another method is refused, and so is another path.
abbrev asks : String → String → HttpRequest
asks m p = record { method = codes m; path = codes p; shard_key = []; body = none }

found_heads : find_handler (asks "HEAD" "/healthz") routes ≡ some health
unfolding find_handler bytes_beq
found_heads = refl

not_allowed_puts : (serve_http (λ b. b) env db (asks "PUT" "/v1/query") server).1.0 ≡ not_allowed
unfolding serve_http find_handler has_path bytes_beq
not_allowed_puts = refl

not_found_paths : (serve_http (λ b. b) env db (asks "GET" "/v2") server).1.0 ≡ not_found
unfolding serve_http find_handler has_path bytes_beq
not_found_paths = refl

handle_query-counts_example :
    count_of (codes "shard-01") (handle_query env db (some request) server).0.metrics ≡ pos 1
unfolding bytes_beq get
handle_query-counts_example =
    ((handle_query-counts env db request key server refl has_sql).0 routed key_answer).0
      (codes "shard-01")

assigned : get (bucket_for probe (pos 1)) mapping.buckets ≡ some bucket
unfolding get bucket_for sum256
assigned = refl

loaded : load server.router.store ≡ some mapping
unfolding load
loaded = refl

probe_answer : resolve probe server.router ≡ ok routed
unfolding resolve bucket_for sum256 get bytes_beq
probe_answer = refl

handle_health-Answers_example : handle_health server ≡ replied 200 healthy
handle_health-Answers_example =
    ((handle_health-Answers server).1 mapping bucket loaded assigned).1
      (routed, (resolve-eq-ok probe server.router loaded assigned routed).0 probe_answer)

key_named : codes "tenant-1" ≢ []
unfolding bytes_beq
key_named = ground (arith, bytes_beq_iff (codes "tenant-1") [])

key_assigned : get (bucket_for key (pos 1)) mapping.buckets ≡ some bucket
unfolding get bucket_for sum256
key_assigned = refl

-- The report on a bucket in a dual write.
abbrev report : RouteResponse
report = record {
  bucket_id = pos 0;
  read_shard_id = codes "shard-01";
  write_shard_ids = codes "shard-01" ∷ codes "shard-05" ∷ [];
  migration_state = state_dual_write;
  writer_endpoint = endpoint_string (shard "shard-01").writer;
  reader_endpoint = reader_text (shard "shard-01").reader;
}

reported : (handle_route (codes "tenant-1") server).1 ≡ replied 200 (Body.routed report)
unfolding handle_route route_response resolve bucket_for sum256 get bytes_beq endpoint_string
reported = refl

handle_route-Answers_example : Reports mapping (bucket_for key (pos 1)) bucket report
handle_route-Answers_example =
    (handle_route-Answers (codes "tenant-1") server key_named loaded key_assigned report).0 reported
