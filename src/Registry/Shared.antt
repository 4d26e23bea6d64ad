-- ===== src/Registry/Shared.antt =====
-- The two loops of internal/registry/etcd.go on the maps in memory, with the pointer of the Store that
-- requests read. Each loop changes a map of its own in place and then swaps the pointer; the steps of
-- the two loops may come in any order, one key at a time. `Clone` is one step: it reads a map that
-- is in the Store.
pub mod InPlace
pub mod Safe
pub mod Snapshots
pub mod Refines
pub mod Alone
mod Tests
use pg_shard_router.Base.{
  ℕ, Bool, true, false, Option, none, some, List, [], ◌∷◌, ◌++◌, ◌==◌, map, not, if◌then◌else◌,
}
use pg_shard_router.Base.Bytes.{Bytes, bytes_eq}
use pg_shard_router.Base.Dict.{put, delete}
use pg_shard_router.Base.Int.{ℤ, pos, inc_int, int_leb, int_eq}
use pg_shard_router.Cache.{Mapping}
use pg_shard_router.Cache.Heap.{
  Heap, make_mapping, clone_at, write_shards, write_buckets, set_revision,
}
use pg_shard_router.Registry.Apply.{Json, ApplyError, decode_shard, decode_bucket, fill_id, set_id}
use pg_shard_router.Registry.Etcd.{event_delete}
use pg_shard_router.Registry.Gateway.{DecodedKv, WatchEvent, event_put}
use pg_shard_router.Registry.Keys.{shard_id_from_key, bucket_id_from_key}

-- The store's pointer, and the maps that `watchLoop` and `loadAll` are working on, if they are, with
-- the revision that the next watch starts from.
pub record Shared : Type 0 where
  pub heap : Heap
  pub ptr : Option ℕ
  pub watching : Option ℕ
  pub loading : Option ℕ
  pub watch_rev : ℤ

-- The steps of `watchLoop` for a batch and of `loadAll` for a response.
pub data Move : Type 0 where
  clones : Move
  applies : WatchEvent → Move
  publishes : ℤ → Move
  makes : ℤ → Move
  stores : DecodedKv → Move
  swaps : Move

-- A step of a loop that is working on a map.
abbrev pub on_map : Option ℕ → (ℕ → Shared) → Shared → Shared
on_map none f s = s
on_map (some q) f s = f q

module _ (json : Json) where
  -- `applyKV` with a pointer to the map.
  apply_bucket_at : ℕ → Option ℤ → Bytes → Bool → Heap → Heap × Option ApplyError
  apply_bucket_at p none value deleted h = (h, none)
  apply_bucket_at p (some id) value deleted h =
      if deleted then (write_buckets p (delete id) h, none) else elim (json.bucket value) [
        | none ↦ (h, some decode_bucket)
        | some def ↦ (write_buckets p (put id (set_id id def)) h, none)
      ]

  apply_shard_at : ℕ → Option Bytes → Bytes → Bytes → Bool → Heap → Heap × Option ApplyError
  unfolding apply_bucket_at
  apply_shard_at p none key value deleted h =
      apply_bucket_at p (bucket_id_from_key key) value deleted h
  apply_shard_at p (some id) key value deleted h =
      if deleted then (write_shards p (delete id) h, none) else elim (json.shard value) [
        | none ↦ (h, some decode_shard)
        | some def ↦ (write_shards p (put id (fill_id id def)) h, none)
      ]

  unfoldable pub apply_kv_at : ℕ → Bytes → Bytes → Bool → Heap → Heap × Option ApplyError
  unfolding apply_shard_at
  apply_kv_at p key value deleted h = apply_shard_at p (shard_id_from_key key) key value deleted h

  unfoldable pub apply_event_at : ℕ → WatchEvent → Heap → Heap
  apply_event_at p ev h =
      if ev.kind == event_put
      then (apply_kv_at p ev.key ev.value false h).0
      else if ev.kind == event_delete
      then (apply_kv_at p ev.key [] true h).0
      else h

  -- `cur.Clone()`, or an empty map where there is none.
  unfoldable pub next_at : Option ℕ → Heap → Heap × ℕ
  next_at none h = make_mapping (pos 0) h
  next_at (some cur) h = clone_at cur h

  -- `if batch.Revision > 0`
  unfoldable pub stamp_at : ℕ → ℤ → Shared → Shared
  stamp_at q rev s =
      if int_leb rev (pos 0)
      then s
      else record s { heap = set_revision q rev s.heap; watch_rev = inc_int rev }

  unfoldable pub step : Shared → Move → Shared
  unfolding apply_kv_at apply_event_at next_at stamp_at
  step s clones = let (h, q) = next_at s.ptr s.heap in record s { heap = h; watching = some q }
  step s (applies ev) = on_map s.watching (λ q. record s { heap = apply_event_at q ev s.heap }) s
  step s (publishes rev) =
      on_map s.watching (λ q. record (stamp_at q rev s) { ptr = some q; watching = none }) s
  step s (makes rev) =
      let (h, q) = make_mapping rev s.heap in record s { heap = h; loading = some q }
  step s (stores kv) =
      on_map s.loading (λ q. record s { heap = (apply_kv_at q kv.key kv.value false s.heap).0 }) s
  step s swaps = on_map s.loading (λ q. record s { ptr = some q; loading = none }) s

  unfoldable pub run : Shared → List Move → Shared
  unfolding step
  run s [] = s
  run s (m ∷ ms) = run (step s m) ms
