-- ===== src/Registry/Apply.antt =====
-- `applyKV` of internal/registry/etcd.go.
pub mod Laws
use pg_shard_router.Base.{Bool, Option, none, some, [], ◌∷◌, ◌==◌, if◌then◌else◌}
use pg_shard_router.Base.Bytes.{Bytes, bytes_eq}
use pg_shard_router.Base.Dict.{put, delete}
use pg_shard_router.Base.Int.{ℤ, int_eq}
use pg_shard_router.Cache.{Mapping}
use pg_shard_router.Model.{ShardDef, BucketDef}
use pg_shard_router.Registry.Keys.{shard_id_from_key, bucket_id_from_key}

-- `json.Unmarshal` into the two structs, as far as the code relies on it: a value or an error.
pub record Json : Type 0 where
  pub shard : Bytes → Option ShardDef
  pub bucket : Bytes → Option BucketDef

pub data ApplyError : Type 0 where
  decode_shard decode_bucket : ApplyError

-- A definition that does not name itself is named by its key.
unfoldable pub fill_id : Bytes → ShardDef → ShardDef
fill_id id def = if def.shard_id == [] then record def { shard_id = id } else def

unfoldable pub set_id : ℤ → BucketDef → BucketDef
set_id id def = record def { bucket_id = id }

module _ (json : Json) where
  unfoldable pub put_shard : Mapping → Bytes → Bytes → Mapping × Option ApplyError
  put_shard m id value = elim (json.shard value) [
    | none ↦ (m, some decode_shard)
    | some def ↦ (record m { shards = put id (fill_id id def) m.shards }, none)
  ]

  unfoldable pub put_bucket : Mapping → ℤ → Bytes → Mapping × Option ApplyError
  put_bucket m id value = elim (json.bucket value) [
    | none ↦ (m, some decode_bucket)
    | some def ↦ (record m { buckets = put id (set_id id def) m.buckets }, none)
  ]

  unfoldable pub apply_bucket : Mapping → Option ℤ → Bytes → Bool → Mapping × Option ApplyError
  unfolding put_bucket
  apply_bucket m none value deleted = (m, none)
  apply_bucket m (some id) value deleted =
      if deleted then (record m { buckets = delete id m.buckets }, none) else put_bucket m id value

  unfoldable pub apply_shard :
      Mapping → Option Bytes → Bytes → Bytes → Bool → Mapping × Option ApplyError
  unfolding put_shard apply_bucket
  apply_shard m none key value deleted = apply_bucket m (bucket_id_from_key key) value deleted
  apply_shard m (some id) key value deleted =
      if deleted then (record m { shards = delete id m.shards }, none) else put_shard m id value

  -- The map is changed in place: it is returned beside the error.
  unfoldable pub apply_kv : Mapping → Bytes → Bytes → Bool → Mapping × Option ApplyError
  unfolding apply_shard
  apply_kv m key value deleted = apply_shard m (shard_id_from_key key) key value deleted
