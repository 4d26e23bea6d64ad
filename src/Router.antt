-- ===== src/Router.antt =====
-- internal/router/router.go: which shards serve the reads and the writes of a key.
pub mod Spec
pub mod Refines
pub mod Errors
pub mod Safety
pub mod Endpoints
pub mod Local
pub mod Handover
mod Tests
use pg_shard_router.Base.{Bool, Option, none, some, List, [], ◌∷◌, ◌++◌, ◌||◌, ◌==◌, if◌then◌else◌}
use pg_shard_router.Base.Bytes.{Bytes, bytes_eq}
use pg_shard_router.Base.Dict.{get}
use pg_shard_router.Base.Int.{ℤ, int_eq}
use pg_shard_router.Base.Result.{Result, ok, err, ◌>>=◌, or_fail}
use pg_shard_router.Cache.{Mapping, Store, load}
use pg_shard_router.Hashing.{ShardKey, bucket_for, or_default_count}
use pg_shard_router.Model.{
  ShardDef, BucketDef, Endpoint, MigrationState, ReadConsistency, shard_active, state_dual_write,
  state_cdc_catchup, state_verifying, state_cutover, state_draining_src, state_active_dest,
  read_eventual,
}

-- The errors of `Resolve`, with what each names.
pub data RouteError : Type 0 where
  no_mapping : RouteError
  shard_unavailable : Bytes → RouteError
  unknown_bucket : ℤ → RouteError
  unknown_shard : Bytes → ℤ → RouteError

pub record Resolved : Type 0 where
  pub bucket_id : ℤ
  pub read_shard : ShardDef
  pub write_shards : List ShardDef
  pub migration_state : MigrationState

pub record Router : Type 0 where
  pub store : Store
  pub bucket_count : ℤ

-- `New`
unfoldable pub new : Store → ℤ → Router
new store bucket_count = record { store = store; bucket_count = or_default_count bucket_count }

-- `PrimaryWriteShard`: `WriteShards[0]`, which panics if there is none.
unfoldable pub primary_write_shard : Resolved → Option ShardDef
primary_write_shard r = elim r.write_shards [ [] ↦ none | s ∷ _ ↦ some s ]

unfoldable pub read_endpoint : ReadConsistency → Resolved → Endpoint
read_endpoint consistency r =
    if consistency == read_eventual
    then elim r.read_shard.reader [ some reader ↦ reader | none ↦ r.read_shard.writer ]
    else r.read_shard.writer

-- The two cases of the `switch` on the state of the bucket.
unfoldable pub is_dual : MigrationState → Bool
is_dual s = s == state_dual_write || s == state_cdc_catchup || s == state_verifying

unfoldable pub is_moved : MigrationState → Bool
is_moved s = s == state_cutover || s == state_draining_src || s == state_active_dest

unfoldable pub migrate : Mapping → BucketDef → Resolved → Result RouteError Resolved
unfolding is_dual is_moved
migrate m bucket res =
    if is_dual bucket.state
    then elim (get bucket.dest_shard_id m.shards) [
      | some dest ↦ ok (record res { write_shards = res.write_shards ++ dest ∷ [] })
      | none ↦ ok res
    ]
    else if is_moved bucket.state
    then elim (get bucket.dest_shard_id m.shards) [
      | some dest ↦ ok (record res { read_shard = dest; write_shards = dest ∷ [] })
      | none ↦ err (unknown_shard bucket.dest_shard_id res.bucket_id)
    ]
    else ok res

-- `for _, ws := range res.WriteShards`, and the test of the read shard after it.
unfoldable pub refuse_inactive : List ShardDef → Resolved → Result RouteError Resolved
refuse_inactive [] res =
    if res.read_shard.status == shard_active
    then ok res
    else err (shard_unavailable res.read_shard.shard_id)
refuse_inactive (ws ∷ rest) res =
    if ws.status == shard_active
    then refuse_inactive rest res
    else err (shard_unavailable ws.shard_id)

unfoldable pub resolve : ShardKey → Router → Result RouteError Resolved
unfolding migrate refuse_inactive load
resolve key r = do
  m ← or_fail (load r.store) no_mapping
  let bucket_id = bucket_for key r.bucket_count
  bucket ← or_fail (get bucket_id m.buckets) (unknown_bucket bucket_id)
  source ← or_fail (get bucket.shard_id m.shards) (unknown_shard bucket.shard_id bucket_id)
  res ← migrate m bucket (record {
    bucket_id = bucket_id;
    read_shard = source;
    write_shards = source ∷ [];
    migration_state = bucket.state;
  })
  refuse_inactive res.write_shards res
