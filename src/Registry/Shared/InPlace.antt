-- ===== src/Registry/Shared/InPlace.antt =====
-- A key applied through a pointer does to the map what `apply_kv` says, and nothing elsewhere.
use pg_shard_router.Base.{
  ℕ, ◌<◌, Bool, true, false, Option, none, some, [], inl, inr, Option-cases, Bool-cases, ◌==◌,
}
use pg_shard_router.Base.Bytes.{Bytes, bytes_eq}
use pg_shard_router.Base.Dict.{put, delete}
use pg_shard_router.Base.Int.{ℤ, int_eq}
use pg_shard_router.Cache.Heap.{Heap, view}
use pg_shard_router.Cache.Heap.Writes.{
  IsSeparate, Writes, Writes-same, write_shards-Writes, write_buckets-Writes,
}
use pg_shard_router.Registry.Apply.{Json, apply_kv}
use pg_shard_router.Registry.Etcd.{apply_event, event_delete}
use pg_shard_router.Registry.Gateway.{WatchEvent, event_put}
use pg_shard_router.Registry.Keys.{shard_id_from_key, bucket_id_from_key}
use pg_shard_router.Registry.Shared.{apply_kv_at, apply_event_at, apply_shard_at, apply_bucket_at}
use pg_shard_router.Registry.Apply.{
  apply_shard, apply_bucket, put_shard, put_bucket, set_id, fill_id,
}

module _ (json : Json) (p : ℕ) (h : Heap) (s : IsSeparate h) (lt : p < h.next) where
  apply_bucket_at-Writes :
      (i : Option ℤ) (value : Bytes) (deleted : Bool)
      → Writes p h
          (apply_bucket_at json p i value deleted h).0
          (apply_bucket json (view p h) i value deleted).0
  unfolding apply_bucket_at apply_bucket put_bucket
  apply_bucket_at-Writes none value deleted = Writes-same p h s
  apply_bucket_at-Writes (some id) value true = write_buckets-Writes p h s lt (delete id)
  apply_bucket_at-Writes (some id) value false = elim (Option-cases (json.bucket value)) [
    | inl bad ↦ rw (bad, put_bucket) (Writes-same p h s)
    | inr (def, good) ↦
        rw (good, put_bucket) (write_buckets-Writes p h s lt (put id (set_id id def)))
  ]

  apply_shard_at-Writes :
      (i : Option Bytes) (key value : Bytes) (deleted : Bool)
      → Writes p h
          (apply_shard_at json p i key value deleted h).0
          (apply_shard json (view p h) i key value deleted).0
  unfolding apply_shard_at apply_shard put_shard
  apply_shard_at-Writes none key value deleted =
      apply_bucket_at-Writes (bucket_id_from_key key) value deleted
  apply_shard_at-Writes (some id) key value true = write_shards-Writes p h s lt (delete id)
  apply_shard_at-Writes (some id) key value false = elim (Option-cases (json.shard value)) [
    | inl bad ↦ rw (bad, put_shard) (Writes-same p h s)
    | inr (def, good) ↦
        rw (good, put_shard) (write_shards-Writes p h s lt (put id (fill_id id def)))
  ]

  pub apply_kv_at-Writes :
      (key value : Bytes) (deleted : Bool)
      → Writes p h
          (apply_kv_at json p key value deleted h).0
          (apply_kv json (view p h) key value deleted).0
  unfolding apply_kv_at apply_kv
  apply_kv_at-Writes key value deleted =
      apply_shard_at-Writes (shard_id_from_key key) key value deleted

  pub apply_event_at-Writes :
      (ev : WatchEvent) → Writes p h (apply_event_at json p ev h) (apply_event json (view p h) ev)
  unfolding apply_event_at apply_event
  apply_event_at-Writes ev = elim (Bool-cases (ev.kind == event_put)) [
    | inl put ↦ rw put (apply_kv_at-Writes ev.key ev.value false)
    | inr other ↦ elim (Bool-cases (ev.kind == event_delete)) [
      | inl del ↦ rw (other, del) (apply_kv_at-Writes ev.key [] true)
      | inr none_of_both ↦ rw (other, none_of_both) (Writes-same p h s)
    ]
  ]
