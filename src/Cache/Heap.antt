-- ===== src/Cache/Heap.antt =====
-- The maps of internal/cache/mapping.go as objects in memory: a Mapping has pointers to its two Go
-- maps, and whoever has a pointer to it sees later writes. An address counts for all three kinds of
-- objects, and what is not allocated yet is never looked at.
pub mod Writes
use pg_shard_router.Base.{ℕ, suc, [], ◌∷◌, nat_beq, if◌then◌else◌}
use pg_shard_router.Base.Bytes.{Bytes, bytes_eq}
use pg_shard_router.Base.Dict.{Dict, put}
use pg_shard_router.Base.Int.{ℤ, int_eq}
use pg_shard_router.Cache.{Mapping}
use pg_shard_router.Model.{ShardDef, BucketDef}

-- The struct: its revision, and the addresses of its maps.
pub record Header : Type 0 where
  pub revision : ℤ
  pub shards : ℕ
  pub buckets : ℕ

pub record Heap : Type 0 where
  pub next : ℕ
  pub headers : ℕ → Header
  pub shard_maps : ℕ → Dict Bytes ShardDef
  pub bucket_maps : ℕ → Dict ℤ BucketDef

unfoldable pub set_at {ℓ} : {A : Type ℓ} → (ℕ → A) → ℕ → A → ℕ → A
set_at f p v q = if nat_beq p q then v else f q

-- What a reader with the pointer sees.
abbrev pub view : ℕ → Heap → Mapping
view p h = record {
  revision = (h.headers p).revision;
  shards = h.shard_maps (h.headers p).shards;
  buckets = h.bucket_maps (h.headers p).buckets;
}

-- `&Mapping{Revision: revision, Shards: make(...), Buckets: make(...)}`
unfoldable pub make_mapping : ℤ → Heap → Heap × ℕ
unfolding set_at
make_mapping revision h = (
  record {
    next = suc h.next;
    headers =
        set_at h.headers h.next (record { revision = revision; shards = h.next; buckets = h.next });
    shard_maps = set_at h.shard_maps h.next [];
    bucket_maps = set_at h.bucket_maps h.next [];
  },
  h.next,
)

-- A write to `p.Shards`, one to `p.Buckets`, and `p.Revision = revision`.
unfoldable pub write_shards : ℕ → (Dict Bytes ShardDef → Dict Bytes ShardDef) → Heap → Heap
unfolding set_at
write_shards p f h =
    let a = (h.headers p).shards in
    record h { shard_maps = set_at h.shard_maps a (f (h.shard_maps a)) }

unfoldable pub write_buckets : ℕ → (Dict ℤ BucketDef → Dict ℤ BucketDef) → Heap → Heap
unfolding set_at
write_buckets p f h =
    let a = (h.headers p).buckets in
    record h { bucket_maps = set_at h.bucket_maps a (f (h.bucket_maps a)) }

unfoldable pub set_revision : ℕ → ℤ → Heap → Heap
unfolding set_at
set_revision p revision h = record h {
  headers = set_at h.headers p (record (h.headers p) { revision = revision });
}

-- The two loops of `Clone`, in the order of Cache.
unfoldable pub copy_shards : ℕ → Dict Bytes ShardDef → Heap → Heap
copy_shards p [] h = h
copy_shards p ((k, v) ∷ m) h = write_shards p (put k v) (copy_shards p m h)

unfoldable pub copy_buckets : ℕ → Dict ℤ BucketDef → Heap → Heap
copy_buckets p [] h = h
copy_buckets p ((k, v) ∷ m) h = write_buckets p (put k v) (copy_buckets p m h)

-- `Clone`: the address of the copy.
unfoldable pub clone_at : ℕ → Heap → Heap × ℕ
unfolding copy_shards copy_buckets
clone_at p h =
    let (h', q) = make_mapping (view p h).revision h in
    (copy_buckets q (view p h).buckets (copy_shards q (view p h).shards h'), q)
