-- ===== src/Startup/Current.antt =====
-- What a request sees of etcd: internal/registry/etcd.go keeps the store up to date, and
-- internal/router/router.go reads it.
mod Tests
use pg_shard_router.Base.{
  ℕ, suc, ◌+◌, Option, none, some, List, [], ◌∷◌, ◌++◌, ◌≡◌, ◌↔◌, arith, All, length, inl, inr,
  Option-cases,
}
use pg_shard_router.Base.Bytes.{Bytes, bytes_eq}
use pg_shard_router.Base.Dict.{get}
use pg_shard_router.Base.Int.{ℤ, int_eq}
use pg_shard_router.Base.Result.{ok, err}
use pg_shard_router.Cache.{Store, load}
use pg_shard_router.Hashing.{ShardKey}
use pg_shard_router.Model.{ShardDef, BucketDef}
use pg_shard_router.Registry.Apply.{Json}
use pg_shard_router.Registry.Apply.Laws.{shard_of, bucket_of}
use pg_shard_router.Registry.Etcd.Follows.{Keyspace, and_then}
use pg_shard_router.Registry.Etcd.Watch.{Follows}
use pg_shard_router.Registry.Gateway.{Wire, Opening, DecodedKv}
use pg_shard_router.Registry.Gateway.Stream.{Packet}
use pg_shard_router.Registry.Http.{Client, Request, Network}
use pg_shard_router.Registry.Keys.{shards_prefix}
use pg_shard_router.Registry.Loops.{turns}
use pg_shard_router.Registry.Loops.Received.{IsFine, Sends, watch_from}
use pg_shard_router.Registry.Loops.Resumes.{started, rounds}
use pg_shard_router.Router
use pg_shard_router.Router.{Router, Resolved, resolve, unknown_bucket}
use pg_shard_router.Router.Spec.{Phase, on_source, on_both, on_dest, phase, IsActive}

-- The shards that serve the reads and the writes, from the source and the destination, if it is known.
abbrev pub places : Phase → ShardDef → Option ShardDef → Option (ShardDef × List ShardDef)
places on_source source dest = some (source, source ∷ [])
places on_both source none = some (source, source ∷ [])
places on_both source (some dest) = some (source, source ∷ dest ∷ [])
places on_dest source none = none
places on_dest source (some dest) = some (dest, dest ∷ [])

module _ (json : Json) (name : ℤ → Bytes) (kvs : Keyspace) where
  -- What etcd's keys say of a shard and of a bucket.
  abbrev pub shard_in : Bytes → Option ShardDef
  shard_in id = and_then (get (shards_prefix ++ id) kvs) (shard_of json id)

  abbrev pub bucket_in : ℤ → Option BucketDef
  bucket_in i = and_then (get (name i) kvs) (bucket_of json i)

  -- The answer for a bucket, by the keys alone.
  pub record RoutedBy (i : ℤ) (b : BucketDef) (res : Resolved) : Type 0 where
    pub source : ShardDef
    pub source_held : shard_in b.shard_id ≡ some source
    pub placed :
        places (phase b.state) source (shard_in b.dest_shard_id)
        ≡ some (res.read_shard, res.write_shards)
    pub reads_active : IsActive res.read_shard
    pub writes_active : All IsActive res.write_shards
    pub id : res.bucket_id ≡ i
    pub state : res.migration_state ≡ b.state

  -- A key is routed by what the keys say of its bucket.
  abbrev pub RoutesBy : ShardKey → Router → ℤ → Option BucketDef → Type 0
  RoutesBy key r i none = resolve key r ≡ err (unknown_bucket i)
  RoutesBy key r i (some b) = (res : Resolved) → (resolve key r ≡ ok res) ↔ RoutedBy i b res

module _ (json : Json) (name : ℤ → Bytes) (wire : Wire) (net : Network)
    (streams : ℕ → Request → Opening) (c : Client) (ep : Bytes) (eps : List Bytes)
    (first : c.endpoints ≡ ep ∷ eps) (got : ℕ → ℤ → List Packet)
    (sent : (k : ℕ) (start : ℤ) → Sends (got k start) (streams k (watch_from wire c ep start)))
    (fine : (k : ℕ) (start : ℤ) → All (IsFine json name) (got k start)) (kvs : List DecodedKv)
    (rev : ℕ) (store : Store) (n : ℕ) where
  -- The store after some watches, which the router reads.
  abbrev pub store_after : ℕ → Store
  store_after k =
      (turns json wire net streams (rounds k)
        (started json name wire net streams c ep eps first got sent fine kvs rev store n)).store
