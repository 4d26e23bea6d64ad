-- ===== src/Registry/Etcd/Tests.antt =====
-- The theorems on loads and watches at concrete inputs.
use pg_shard_router.Base.{false, List, [], ◌∷◌, ◌++◌, ◌≡◌, refl}
use pg_shard_router.Base.Bytes.{Bytes, codes, bytes_eq, bytes_beq}
use pg_shard_router.Base.Dict.{get, put, delete}
use pg_shard_router.Base.Int.{pos, inc_int, int_eq}
use pg_shard_router.Base.Result.{ok}
use pg_shard_router.Cache.{Mapping, Store, new_store, swap}
use pg_shard_router.Registry.Keys.{buckets_prefix, shards_prefix}
use pg_shard_router.Registry.Etcd.{
  DecodedKv, WatchBatch, event_put, event_delete, load_all, consume,
}
use pg_shard_router.Registry.Etcd.Follows.{happened}
use pg_shard_router.Base.{some, ◌≢◌, ap}
use pg_shard_router.Base.Bytes.{cut_prefix}
use pg_shard_router.Base.Strconv.{atoi}
use pg_shard_router.Cache.{load}
use pg_shard_router.Hashing.{ShardKey, text, bucket_for}
use pg_shard_router.Hashing.Sha256.{sum256}
use pg_shard_router.Registry.Etcd.{apply_batch}
use pg_shard_router.Registry.Etcd.Local.{apply_batch-resolve}
use pg_shard_router.Registry.Keys.{bucket_id_from_key}
use pg_shard_router.Registry.Keys.Laws.{bucket_id_from_key-shard}
use pg_shard_router.Router.{Router, resolve}
use pg_shard_router.Registry.Etcd.Watch.{
  Follows, watch-eq-reload, shard_at, all_happened, listed, events_of,
}
use pg_shard_router.Registry.Sample.{json, name, kvs, IsWellFormed-shard, IsWellFormed-bucket}

abbrev batch : WatchBatch
batch = record {
  revision = pos 12;
  events =
      record { kind = event_put; key = buckets_prefix ++ codes "7"; value = codes "shard-05" }
      ∷ record { kind = event_delete; key = shards_prefix ++ codes "shard-01"; value = [] }
      ∷ [];
  canceled = false;
}

abbrev watched : Store
watched =
    (consume json (batch ∷ []) ((load_all json (ok (kvs, pos 11)) new_store).0, inc_int (pos 11))).0

abbrev now : List DecodedKv
now = record { key = buckets_prefix ++ codes "7"; value = codes "shard-05" } ∷ []

same_contents :
    (k : Bytes) → get k (all_happened (listed kvs) (events_of (batch ∷ []))) ≡ get k (listed now)
unfolding events_of all_happened happened put delete bytes_beq
same_contents k = refl

watch-eq-reload_example :
    shard_at watched (codes "shard-01")
    ≡ shard_at (load_all json (ok (now, pos 20)) new_store).0 (codes "shard-01")
unfolding events_of
watch-eq-reload_example =
    (watch-eq-reload json name kvs now (pos 11) (pos 20) new_store new_store (batch ∷ [])
        (IsWellFormed-shard event_put _, (IsWellFormed-bucket event_put _, tt))
        (IsWellFormed-bucket event_put _, tt) (refl, tt)
        (IsWellFormed-bucket event_put _, (IsWellFormed-shard event_delete _, tt)) same_contents).0
      (codes "shard-01")

-- A router over one bucket, and a batch that assigns another one.
abbrev tenant : ShardKey
tenant = text (codes "tenant-1")

abbrev one_bucket : Mapping
one_bucket = record {
  revision = pos 1;
  shards = [];
  buckets =
      (
        pos 0,
        record {
          bucket_id = pos 0;
          shard_id = codes "shard-01";
          dest_shard_id = [];
          state = [];
          mapping_version = pos 0;
        },
      )
      ∷ [];
}

abbrev router : Router
router = record { store = swap one_bucket new_store; bucket_count = pos 1 }

abbrev assigns_7 : WatchBatch
assigns_7 = record batch {
  events =
      record { kind = event_put; key = buckets_prefix ++ codes "7"; value = codes "shard-05" } ∷ [];
}

bucket_7 : bucket_id_from_key (buckets_prefix ++ codes "7") ≡ some (pos 7)
unfolding bucket_id_from_key cut_prefix atoi
bucket_7 = refl

tenant_bucket : bucket_for tenant (pos 1) ≡ pos 0
unfolding bucket_for sum256
tenant_bucket = refl

no_shard_key : (id : Bytes) → buckets_prefix ++ codes "7" ≢ shards_prefix ++ id
no_shard_key id e = cc (ap bucket_id_from_key e, bucket_7, bucket_id_from_key-shard id)

apply_batch-resolve_example :
    resolve tenant (record router { store = (apply_batch json assigns_7 (router.store, pos 12)).0 })
    ≡ resolve tenant router
apply_batch-resolve_example =
    apply_batch-resolve json assigns_7 (pos 12) tenant router one_bucket (unfold load swap in refl)
      (
        record {
          bucket = λ e. cc (e, bucket_7, tenant_bucket);
          source = λ b e. no_shard_key b.shard_id;
          dest = λ b e. no_shard_key b.dest_shard_id;
        },
        tt,
      )
