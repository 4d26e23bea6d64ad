-- ===== src/Metrics.antt =====
-- internal/metrics/metrics.go: the counters. Each method runs under the registry's mutex. A snapshot
-- is a copy of the map, which a later increment does not change: here the map itself.
pub mod Counts
use pg_shard_router.Base.{[]}
use pg_shard_router.Base.Bytes.{Bytes, bytes_eq}
use pg_shard_router.Base.Dict.{Dict, get, put}
use pg_shard_router.Base.Int.{ℤ, pos, inc_int}
use pg_shard_router.Base.{Option, none, some}

pub record Registry : Type 0 where
  pub requests_by_shard : Dict Bytes ℤ
  pub routing_errors : ℤ

abbrev pub new_registry : Registry
new_registry = record { requests_by_shard = []; routing_errors = pos 0 }

-- A missing key of a Go map of numbers reads as 0.
abbrev pub or_zero : Option ℤ → ℤ
or_zero none = pos 0
or_zero (some n) = n

unfoldable pub inc_routing_request : Bytes → ℤ → Registry → Registry
inc_routing_request shard_id bucket_id r = record r {
  requests_by_shard =
      put shard_id (inc_int (or_zero (get shard_id r.requests_by_shard))) r.requests_by_shard;
}

unfoldable pub inc_routing_error : Registry → Registry
inc_routing_error r = record r { routing_errors = inc_int r.routing_errors }
