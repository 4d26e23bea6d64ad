-- ===== src/Registry/File.antt =====
-- internal/registry/file.go: the shard map from a JSON file. The file's text, its decoder and the
-- order in which `range` visits the buckets are arguments.
pub mod Orders
pub mod Visits
mod Tests
use pg_shard_router.Base.{Option, none, some, List, [], ◌∷◌}
use pg_shard_router.Base.Bytes.{Bytes}
use pg_shard_router.Base.Dict.{Dict, put}
use pg_shard_router.Base.Int.{ℤ, pos, int_eq}
use pg_shard_router.Base.Result.{Result, ok, err}
use pg_shard_router.Base.Sscanf.{sscanf_int}
use pg_shard_router.Cache.{Store, swap}
use pg_shard_router.Model.{ShardDef, BucketDef}

pub record FileDoc : Type 0 where
  pub shards : Dict Bytes ShardDef
  pub buckets : Dict Bytes BucketDef

pub data FileError : Type 0 where
  not_read not_decoded : FileError
  bad_bucket_key : Bytes → FileError

unfoldable pub parse_bucket_id : Bytes → Option ℤ
parse_bucket_id s = sscanf_int s

-- The loop over `doc.Buckets`, in the order of the visit.
unfoldable pub load_buckets :
    Dict Bytes BucketDef → Dict ℤ BucketDef → Result FileError (Dict ℤ BucketDef)
load_buckets [] m = ok m
load_buckets ((id_str, b) ∷ visit) m = elim (parse_bucket_id id_str) [
  | none ↦ err (bad_bucket_key id_str)
  | some id ↦ load_buckets visit (put id (record b { bucket_id = id }) m)
]

swap_loaded :
    FileDoc → Store → Result FileError (Dict ℤ BucketDef) → Store × Result FileError (Unit {0})
swap_loaded doc store (err e) = (store, err e)
swap_loaded doc store (ok buckets) =
    (swap (record { revision = pos 1; shards = doc.shards; buckets = buckets }) store, ok tt)

-- `Start`; `visit` gives the order of the buckets.
unfoldable pub start :
    (Bytes → Option FileDoc)
    → (Dict Bytes BucketDef → Dict Bytes BucketDef)
    → Option Bytes
    → Store
    → Store × Result FileError (Unit {0})
unfolding load_buckets swap_loaded
start decode visit none store = (store, err not_read)
start decode visit (some text) store = elim (decode text) [
  | none ↦ (store, err not_decoded)
  | some doc ↦ swap_loaded doc store (load_buckets (visit doc.buckets) [])
]
