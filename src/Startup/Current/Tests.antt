-- ===== src/Startup/Current/Tests.antt =====
-- The way from etcd to an answer, on the history of the watch's tests.
use pg_shard_router.Base.{[], refl}
use pg_shard_router.Base.Bytes.{codes, bytes_eq}
use pg_shard_router.Base.Int.{pos, int_eq}
use pg_shard_router.Cache.{new_store}
use pg_shard_router.Hashing.{ShardKey, text}
use pg_shard_router.Registry.Loops.Sample.{got, streams, Sends-got, IsFine-got, wire, client, net}
use pg_shard_router.Registry.Sample.{json, name, kvs}
use pg_shard_router.Router
use pg_shard_router.Router.{Router}
use pg_shard_router.Startup.Current.{store_after}

-- A key of bucket 7 of 8.
abbrev key : ShardKey
key = text (codes "customer-26")

abbrev router : Router
router =
    Router.new
      (store_after json name wire net streams client (codes "http://etcd-01") [] refl got Sends-got
        IsFine-got kvs 11 new_store 0 3)
      (pos 8)
