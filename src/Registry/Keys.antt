-- ===== src/Registry/Keys.antt =====
-- internal/registry/keys.go
pub mod Laws
use pg_shard_router.Base.{Option, none, some, ◌++◌}
use pg_shard_router.Base.Bytes.{Bytes, codes, cut_prefix}
use pg_shard_router.Base.Int.{ℤ}
use pg_shard_router.Base.Strconv.{atoi}

abbrev pub prefix : Bytes
prefix = codes "/sharding/"

abbrev pub shards_prefix : Bytes
shards_prefix = codes "/sharding/shards/"

abbrev pub buckets_prefix : Bytes
buckets_prefix = codes "/sharding/buckets/"

-- `HasPrefix` and `TrimPrefix` together are `cut_prefix`.
unfoldable pub shard_id_from_key : Bytes → Option Bytes
shard_id_from_key key = cut_prefix key shards_prefix

-- An identifier that is no number gives no bucket.
unfoldable pub number_of : Option Bytes → Option ℤ
number_of none = none
number_of (some id) = atoi id

unfoldable pub bucket_id_from_key : Bytes → Option ℤ
unfolding number_of
bucket_id_from_key key = number_of (cut_prefix key buckets_prefix)
