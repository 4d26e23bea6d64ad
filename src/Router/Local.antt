-- ===== src/Router/Local.antt =====
-- A route looks at one bucket and at most two shards of the map.
use pg_shard_router.Base.{some, ◌≡◌, refl, inl, inr, Option-cases}
use pg_shard_router.Base.Bytes.{bytes_eq}
use pg_shard_router.Base.Dict.{get}
use pg_shard_router.Base.Int.{int_eq, ℤ}
use pg_shard_router.Cache.{Mapping, Store, load}
use pg_shard_router.Hashing.{ShardKey, bucket_for}
use pg_shard_router.Model.{BucketDef}
use pg_shard_router.Router.{Router, resolve}

-- The two maps have the same at bucket `i`, and at the shards that it names.
pub record AgreeAt (i : ℤ) (m m' : Mapping) : Type 0 where
  pub bucket : get i m'.buckets ≡ get i m.buckets
  pub source :
      (b : BucketDef)
      → get i m.buckets ≡ some b
      → get b.shard_id m'.shards ≡ get b.shard_id m.shards
  pub dest :
      (b : BucketDef)
      → get i m.buckets ≡ some b
      → get b.dest_shard_id m'.shards ≡ get b.dest_shard_id m.shards

-- A router that goes from a store to one whose map agrees at the bucket of a key gives the same
-- answer for it.
pub resolve-AgreeAt :
    (key : ShardKey) (r : Router) (after : Store) (m m' : Mapping)
    → load r.store ≡ some m
    → load after ≡ some m'
    → AgreeAt (bucket_for key r.bucket_count) m m'
    → resolve key (record r { store = after }) ≡ resolve key r
unfolding resolve
resolve-AgreeAt key r after m m' e e' a =
    elim (Option-cases (get (bucket_for key r.bucket_count) m.buckets)) [
      | inl missing ↦ rw (e, e', a.bucket, missing) refl
      | inr (b, there) ↦ elim (Option-cases (get b.shard_id m.shards)) [
        | inl unknown ↦ rw (e, e', a.bucket, there, a.source b there, unknown) refl
        | inr (source, known) ↦
            rw (e, e', a.bucket, there, a.source b there, known, a.dest b there) refl
      ]
    ]
