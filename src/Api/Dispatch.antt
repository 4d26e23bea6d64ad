-- ===== src/Api/Dispatch.antt =====
-- `NewServer` and `routes` of internal/api/server.go: which handler a request comes to. Of net/http's
-- ServeMux, the source uses patterns of a method and a path: GET takes HEAD too, a path of no pattern
-- is answered 404, and one with other methods only 405. A path is as ServeMux has cleaned it.
pub mod Calm
use pg_shard_router.Api.{Server, QueryRequest, Response, handle_health, handle_route}
use pg_shard_router.Api.Page.{handle_metrics}
use pg_shard_router.Api.Query.{Database, Secondary, handle_query}
use pg_shard_router.Base.{Bool, Option, none, some, List, [], ◌∷◌, ◌==◌, ◌||◌, ◌&&◌, if◌then◌else◌}
use pg_shard_router.Base.Bytes.{Bytes, codes, bytes_eq}
use pg_shard_router.Breaker.{new_registry}
use pg_shard_router.Metrics
use pg_shard_router.Pool.{Manager}
use pg_shard_router.Pool.Acquire.{Env}
use pg_shard_router.Router.{Router}

pub data Handler : Type 0 where
  health route query metrics : Handler

pub record Pattern : Type 0 where
  pub method : Bytes
  pub path : Bytes
  pub handler : Handler

abbrev pub routes : List Pattern
routes =
    record { method = codes "GET"; path = codes "/healthz"; handler = health }
    ∷ record { method = codes "GET"; path = codes "/v1/route"; handler = route }
    ∷ record { method = codes "POST"; path = codes "/v1/query"; handler = query }
    ∷ record { method = codes "GET"; path = codes "/metrics"; handler = metrics }
    ∷ []

-- The parameter of the URL, and the body where it decodes.
pub record HttpRequest : Type 0 where
  pub method : Bytes
  pub path : Bytes
  pub shard_key : Bytes
  pub body : Option QueryRequest

pub data Reply : Type 0 where
  answered : Response → Reply
  page_of : Bytes → Reply
  not_found : Reply
  not_allowed : Reply

abbrev takes : Bytes → Bytes → Bool
takes pattern method = (pattern == method) || ((pattern == codes "GET") && (method == codes "HEAD"))

-- What becomes of a request if the patterns after these do not match it.
unfoldable pub find_handler : HttpRequest → List Pattern → Option Handler
find_handler r [] = none
find_handler r (p ∷ ps) =
    let rest = find_handler r ps in
    if (p.path == r.path) && takes p.method r.method then some p.handler else rest

unfoldable pub has_path : HttpRequest → List Pattern → Bool
has_path r [] = Bool.false
has_path r (p ∷ ps) = let rest = has_path r ps in (p.path == r.path) || rest

module _ (quote : Bytes → Bytes) (env : Env) (db : Database) where
  unfoldable pub handle : HttpRequest → Server → Handler → Server × (Reply × List Secondary)
  handle r s health = (s, (answered (handle_health s), []))
  handle r s route = let (s', resp) = handle_route r.shard_key s in (s', (answered resp, []))
  handle r s query =
      let (s', (resp, tasks)) = handle_query env db r.body s in (s', (answered resp, tasks))
  handle r s metrics = (s, (page_of (handle_metrics quote s), []))

  -- `ServeHTTP` of the mux that `Handler` returns.
  unfoldable pub serve_http : HttpRequest → Server → Server × (Reply × List Secondary)
  unfolding handle
  serve_http r s = elim (find_handler r routes) [
    | some h ↦ handle r s h
    | none ↦ (s, (if has_path r routes then not_allowed else not_found, []))
  ]
