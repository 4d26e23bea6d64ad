-- ===== src/Registry/Etcd/Race.antt =====
-- The two background loops share the store without a lock: a periodic load whose response was taken
-- before a batch, and which is swapped in after it.
use pg_shard_router.Base.{ℕ, false, List, [], ◌∷◌}
use pg_shard_router.Base.Bytes.{Bytes}
use pg_shard_router.Base.Int.{ℤ, pos, inc_int}
use pg_shard_router.Base.Result.{ok}
use pg_shard_router.Cache.{Store}
use pg_shard_router.Registry.Apply.{Json}
use pg_shard_router.Registry.Etcd.{DecodedKv, WatchEvent, WatchBatch, load_all, consume}
use pg_shard_router.Registry.Etcd.Watch.{Follows}

module _ (json : Json) (name : ℤ → Bytes) (kvs : List DecodedKv) (store : Store) where
  -- One batch, of the changes at revision `b`.
  abbrev pub batch_at : ℕ → List WatchEvent → WatchBatch
  batch_at b events = record { revision = pos b; events = events; canceled = false }

  -- After a load at revision `a`, the watch applies the events of a batch of a later revision `b`.
  abbrev pub caught_up : ℕ → ℕ → List WatchEvent → Store × ℤ
  caught_up a b events =
      consume json (batch_at b events ∷ [])
        ((load_all json (ok (kvs, pos a)) store).0, inc_int (pos a))
