-- ===== src/Cache.antt =====
-- internal/cache/mapping.go: the local copy of the shard map, and the store that holds it.
pub mod Copies
pub mod Heap
use pg_shard_router.Base.{Bool, true, false, Option, none, some, [], ◌∷◌, Eq}
use pg_shard_router.Base.Bytes.{Bytes, bytes_eq}
use pg_shard_router.Base.Dict.{Dict, put}
use pg_shard_router.Base.Int.{ℤ, int_eq}
use pg_shard_router.Model.{ShardDef, BucketDef}

pub record Mapping : Type 0 where
  pub revision : ℤ
  pub shards : Dict Bytes ShardDef
  pub buckets : Dict ℤ BucketDef

-- `for k, v := range m { out[k] = v }`. Go leaves the order of `range` open, and a map holds a key
-- once; here the last item is written first.
pub copy_into {ℓ} : {K V : Type ℓ} ⦃e : Eq K⦄ → Dict K V → Dict K V → Dict K V
copy_into out [] = out
copy_into out ((k, v) ∷ m) = put k v (copy_into out m)

unfoldable pub clone : Mapping → Mapping
clone m = record {
  revision = m.revision;
  shards = copy_into [] m.shards;
  buckets = copy_into [] m.buckets;
}

-- `nil` until the first load has succeeded.
pub record Store : Type 0 where
  pub ptr : Option Mapping

unfoldable pub new_store : Store
new_store = record { ptr = none }

unfoldable pub load : Store → Option Mapping
load s = s.ptr

unfoldable pub swap : Mapping → Store → Store
swap m s = record s { ptr = some m }

unfoldable pub ready : Store → Bool
ready s = elim s.ptr [ none ↦ false | some m ↦ true ]
