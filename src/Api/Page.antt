-- ===== src/Api/Page.antt =====
-- The handler of /metrics in internal/api/server.go. `quote` is the `%q` of fmt. The copies of the
-- two maps that are printed are the maps.
pub mod Sorted
mod Tests
use pg_shard_router.Api.{Server}
use pg_shard_router.Base.{
  Bool, true, false, Option, none, some, List, [], ◌∷◌, ◌++◌, nat_beq, ltb, map, if◌then◌else◌,
}
use pg_shard_router.Base.Bytes.{Bytes, codes, bytes_eq, decimal_int}
use pg_shard_router.Base.Dict.{Dict, get}
use pg_shard_router.Base.Int.{ℤ, pos}
use pg_shard_router.Breaker
use pg_shard_router.Breaker.{State, half_open, open_, closed, snapshot}
use pg_shard_router.Metrics
use pg_shard_router.Metrics.{or_zero}

unfoldable pub breaker_state_value : State → ℤ
breaker_state_value half_open = pos 1
breaker_state_value open_ = pos 2
breaker_state_value closed = pos 0

-- The order of Go's strings.
unfoldable pub bytes_leb : Bytes → Bytes → Bool
bytes_leb [] t = true
bytes_leb (c ∷ s) [] = false
bytes_leb (c ∷ s) (d ∷ t) = let rest = bytes_leb s t in if nat_beq c d then rest else ltb c d

unfoldable pub insert : Bytes → List Bytes → List Bytes
unfolding bytes_leb
insert k [] = k ∷ []
insert k (j ∷ ks) = let rest = insert k ks in if bytes_leb k j then k ∷ j ∷ ks else j ∷ rest

-- `sort.Strings`
unfoldable pub sort : List Bytes → List Bytes
unfolding insert
sort [] = []
sort (k ∷ ks) = insert k (sort ks)

abbrev pub keys : {V : Type 0} → Dict Bytes V → List Bytes
keys [] = []
keys ((k, v) ∷ m) = k ∷ keys m

-- `sortedKeys` and `sortedBreakerKeys`
unfoldable pub sorted_keys : {V : Type 0} → Dict Bytes V → List Bytes
unfolding sort
sorted_keys m = sort (keys m)

-- A state that is missing reads as the first one, closed.
abbrev pub or_closed : Option State → State
or_closed none = closed
or_closed (some s) = s

unfoldable pub lines : (Bytes → Bytes) → List Bytes → Bytes
lines line [] = []
lines line (k ∷ ks) = line k ++ lines line ks

module _ (quote : Bytes → Bytes) where
  unfoldable pub request_line : Dict Bytes ℤ → Bytes → Bytes
  request_line m k =
      codes "shard_router_routing_requests_total{shard_id="
      ++ quote k
      ++ codes "} "
      ++ decimal_int (or_zero (get k m))
      ++ 10 ∷ []

  unfoldable pub state_line : Dict Bytes State → Bytes → Bytes
  unfolding breaker_state_value
  state_line m k =
      codes "shard_router_breaker_state{shard_id="
      ++ quote k
      ++ codes "} "
      ++ decimal_int (breaker_state_value (or_closed (get k m)))
      ++ 10 ∷ []

  unfoldable pub page : Dict Bytes ℤ → ℤ → Dict Bytes State → Bytes
  unfolding sorted_keys lines request_line state_line
  page requests errors states =
      codes "# HELP shard_router_routing_requests_total Routing decisions made, by shard_id"
      ++ 10 ∷ []
      ++ codes "# TYPE shard_router_routing_requests_total counter"
      ++ 10 ∷ []
      ++ lines (request_line requests) (sorted_keys requests)
      ++ codes "# HELP shard_router_routing_errors_total Routing resolution failures"
      ++ 10 ∷ []
      ++ codes "# TYPE shard_router_routing_errors_total counter"
      ++ 10 ∷ []
      ++ codes "shard_router_routing_errors_total "
      ++ decimal_int errors
      ++ 10 ∷ []
      ++ codes
          "# HELP shard_router_breaker_state Circuit breaker state by shard_id (0=closed,1=half_open,2=open)"
      ++ 10 ∷ []
      ++ codes "# TYPE shard_router_breaker_state gauge"
      ++ 10 ∷ []
      ++ lines (state_line states) (sorted_keys states)

  -- `handleMetrics`
  unfoldable pub handle_metrics : Server → Bytes
  unfolding page
  handle_metrics s =
      page s.metrics.requests_by_shard s.metrics.routing_errors (snapshot s.breakers.breakers)
