-- ===== src/Registry/Etcd.antt =====
-- internal/registry/etcd.go: the full load, and the batches of a watch. What the client delivers
-- (internal/registry/etcdhttp.go) is an argument: the pairs of a range request with their revision,
-- or an error; and the batches of a watch in the order of the channel.
pub mod Follows
pub mod Watch
pub mod Revisions
pub mod Race
pub mod Local
mod Tests
use pg_shard_router.Base.{
  Bool, true, false, Option, none, some, List, [], ◌∷◌, ◌==◌, ◌&&◌, if◌then◌else◌, not,
}
use pg_shard_router.Base.Bytes.{Bytes, codes, bytes_eq}
use pg_shard_router.Base.Int.{ℤ, pos, inc_int, int_leb}
use pg_shard_router.Base.Result.{Result, ok, err}
use pg_shard_router.Cache.{Mapping, Store, clone, load, swap}
use pg_shard_router.Registry.Apply.{Json, apply_kv}
pub use pg_shard_router.Registry.Gateway.{DecodedKv, WatchEvent, WatchBatch, event_put}
use pg_shard_router.Registry.Gateway.{RangeError}

abbrev pub event_delete : Bytes
event_delete = codes "DELETE"

module _ (json : Json) where
  -- The loop of `loadAll`: a malformed key is logged and passed over.
  unfoldable pub apply_all : Mapping → List DecodedKv → Mapping
  apply_all m [] = m
  apply_all m (e ∷ kvs) = apply_all (apply_kv json m e.key e.value false).0 kvs

  -- `loadAll`, given what the range request returned.
  unfoldable pub load_all :
      Result RangeError (List DecodedKv × ℤ) → Store → Store × Result RangeError ℤ
  unfolding apply_all
  load_all (err e) s = (s, err e)
  load_all (ok (kvs, rev)) s =
      let m : Mapping = record { revision = rev; shards = []; buckets = [] } in
      (swap (apply_all m kvs) s, ok rev)

  -- The `switch ev.Type`: an event of another type is passed over.
  unfoldable pub apply_event : Mapping → WatchEvent → Mapping
  apply_event m ev =
      if ev.kind == event_put
      then (apply_kv json m ev.key ev.value false).0
      else if ev.kind == event_delete
      then (apply_kv json m ev.key [] true).0
      else m

  unfoldable pub apply_events : Mapping → List WatchEvent → Mapping
  unfolding apply_event
  apply_events m [] = m
  apply_events m (ev ∷ evs) = apply_events (apply_event m ev) evs

  -- The copy that a batch is applied to.
  unfoldable pub next_of : Option Mapping → Mapping
  next_of none = record { revision = pos 0; shards = []; buckets = [] }
  next_of (some cur) = clone cur

  -- `batch.Revision > 0`
  abbrev pub has_revision : WatchBatch → Bool
  has_revision batch = not (int_leb batch.revision (pos 0))

  -- The body of the loop over the batches of one watch, for a batch that is not canceled: the store
  -- and the revision that the next watch starts from.
  unfoldable pub apply_batch : WatchBatch → Store × ℤ → Store × ℤ
  unfolding apply_events next_of
  apply_batch batch (store, watch_rev) =
      let next = apply_events (next_of (load store)) batch.events in
      if has_revision batch
      then (swap (record next { revision = batch.revision }) store, inc_int batch.revision)
      else (swap next store, watch_rev)

  -- `for batch := range batches`, until the channel closes or a batch is canceled.
  unfoldable pub consume : List WatchBatch → Store × ℤ → Store × ℤ
  unfolding apply_batch
  consume [] s = s
  consume (batch ∷ batches) s =
      let rest = consume batches (apply_batch batch s) in if batch.canceled then s else rest
