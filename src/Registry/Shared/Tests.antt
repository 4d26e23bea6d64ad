-- ===== src/Registry/Shared/Tests.antt =====
-- A load, and then a batch whose steps come between those of a second load.
use pg_shard_router.Base.{false, none, some, List, [], ◌∷◌, ◌++◌, ◌≡◌, refl, arith}
use pg_shard_router.Base.Bytes.{codes}
use pg_shard_router.Base.Int.{pos}
use pg_shard_router.Cache.Heap.{view, make_mapping}
use pg_shard_router.Registry.Etcd.{apply_batch}
use pg_shard_router.Registry.Gateway.{WatchBatch, WatchEvent, event_put}
use pg_shard_router.Registry.Keys.{buckets_prefix}
use pg_shard_router.Registry.Sample.{json, kvs}
use pg_shard_router.Registry.Shared.{
  Shared, Move, clones, applies, publishes, makes, stores, swaps, run,
}
use pg_shard_router.Registry.Shared.Alone.{batch_moves, load_moves, alone_refines}
use pg_shard_router.Registry.Shared.Refines.{values}
use pg_shard_router.Registry.Shared.Safe.{IsSafe}
use pg_shard_router.Registry.Shared.Snapshots.{run-Keeps, snapshot_kept}

-- Before anything is allocated.
abbrev empty : Shared
empty = record {
  heap = record {
    next = 0;
    headers = λ p. record { revision = pos 0; shards = 0; buckets = 0 };
    shard_maps = λ p. [];
    bucket_maps = λ p. [];
  };
  ptr = none;
  watching = none;
  loading = none;
  watch_rev = pos 12;
}

IsSafe-empty : IsSafe empty
IsSafe-empty = record {
  separate = λ p lt. absurd (omega arith);
  ptr_live = λ p e. cc;
  watching_live = λ p e. cc;
  loading_live = λ p e. cc;
  watching_apart = λ p q e f. cc;
  loading_apart = λ p q e f. cc;
  loops_apart = λ p q e f. cc;
}

abbrev loaded : Shared
loaded = run json empty (load_moves kvs (pos 11))

IsSafe-loaded : IsSafe loaded
IsSafe-loaded = (run-Keeps json (load_moves kvs (pos 11)) empty IsSafe-empty).safe

current : loaded.ptr ≡ some 0
unfolding run load_moves make_mapping
current = refl

abbrev moved : WatchEvent
moved = record { kind = event_put; key = buckets_prefix ++ codes "7"; value = codes "shard-05" }

abbrev mixed : List Move
mixed =
    makes (pos 11)
    ∷ clones
    ∷ stores (record { key = buckets_prefix ++ codes "7"; value = codes "shard-01" })
    ∷ applies moved
    ∷ publishes (pos 12)
    ∷ swaps
    ∷ []

snapshot_kept_example : view 0 (run json loaded mixed).heap ≡ view 0 loaded.heap
snapshot_kept_example = snapshot_kept json 0 mixed loaded IsSafe-loaded current

abbrev batch : WatchBatch
batch = record { revision = pos 12; events = moved ∷ []; canceled = false }

alone_refines_example :
    let t = values (run json loaded (batch_moves batch)) in
    (t.store, t.watch_rev) ≡ apply_batch json batch ((values loaded).store, loaded.watch_rev)
alone_refines_example = (alone_refines json loaded IsSafe-loaded).0 batch
