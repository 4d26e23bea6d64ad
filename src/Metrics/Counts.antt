-- ===== src/Metrics/Counts.antt =====
-- The counter of a shard, and what a request adds to it.
use pg_shard_router.Base.{◌≡◌, arith, ◌==◌, if◌then◌else◌}
use pg_shard_router.Base.Bytes.{Bytes, bytes_eq, bytes_beq_iff}
use pg_shard_router.Base.Dict.{get, get-put}
use pg_shard_router.Base.Int.{ℤ, inc_int}
use pg_shard_router.Metrics.{Registry, or_zero, inc_routing_request}

abbrev pub count_of : Bytes → Registry → ℤ
count_of j r = or_zero (get j r.requests_by_shard)

pub count_of-inc_routing_request :
    (id j : Bytes) (i : ℤ) (r : Registry)
    → count_of j (inc_routing_request id i r)
      ≡ (if id == j then inc_int (count_of j r) else count_of j r)
unfolding inc_routing_request
count_of-inc_routing_request id j i r = ground (
  arith,
  get-put id j (inc_int (or_zero (get id r.requests_by_shard))) r.requests_by_shard,
  bytes_beq_iff id j,
)
