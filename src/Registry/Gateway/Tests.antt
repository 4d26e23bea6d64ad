-- ===== src/Registry/Gateway/Tests.antt =====
-- A range request at a concrete key-space.
use pg_shard_router.Base.{some, List, [], ◌∷◌, ◌≡◌, ◌++◌, refl, arith}
use pg_shard_router.Base.Bytes.{codes}
use pg_shard_router.Base.Int.{pos}
use pg_shard_router.Base.Result.{ok}
use pg_shard_router.Registry.Gateway.{Wire, DecodedKv, range_prefix}
use pg_shard_router.Registry.Gateway.Prefix.{range_prefix-eq-ok, range_reply, select}
use pg_shard_router.Registry.Http.{Client, Network, answered}
use pg_shard_router.Registry.Keys.{prefix, shards_prefix, buckets_prefix}
use pg_shard_router.Registry.RangeEnd.{get_prefix_range_end}
use pg_shard_router.Registry.RangeEnd.Selects.{has_prefix}
use pg_shard_router.Registry.Sample.{AreBytes-tested, kvs}

-- The key-space: what is listed, and a key outside the prefix.
abbrev db : List DecodedKv
db = record { key = codes "/other"; value = codes "x" } ∷ kvs

abbrev wire : Wire
wire = record {
  range_body = λ key range_end. key;
  range_response = λ raw. some (range_reply 11 db prefix (get_prefix_range_end prefix));
  watch_body = λ key range_end start. start;
}

abbrev net : Network
net = record {
  answer = λ n r. answered 200 (codes "{}");
  auth_body = λ u p. u ++ p;
  token_of = λ s. some s;
}

abbrev client : Client
client = record {
  endpoints = codes "http://etcd-01" ∷ [];
  username = [];
  password = [];
  token = [];
}

range_prefix-eq-ok_example :
    range_prefix wire net prefix (client, 0)
    ≡ ((client, 1), ok (select (λ k. has_prefix k prefix) db, pos 11))
range_prefix-eq-ok_example =
    range_prefix-eq-ok wire net 11 db prefix client (codes "http://etcd-01") [] 0 (codes "{}")
      (omega arith) (AreBytes-tested prefix refl)
      (
        (AreBytes-tested (codes "/other") refl, AreBytes-tested (codes "x") refl),
        (
          (
            AreBytes-tested (shards_prefix ++ codes "shard-01") refl,
            AreBytes-tested (codes "jakarta") refl,
          ),
          (
            (
              AreBytes-tested (buckets_prefix ++ codes "7") refl,
              AreBytes-tested (codes "shard-01") refl,
            ),
            tt,
          ),
        ),
      )
      refl refl refl
