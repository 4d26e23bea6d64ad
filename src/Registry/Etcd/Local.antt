-- ===== src/Registry/Etcd/Local.antt =====
-- What a watch event changes of the routing.
use pg_shard_router.Base.{
  Bool, true, false, Option, none, some, List, [], ◌∷◌, ◌++◌, ◌≡◌, ◌≢◌, refl, ap, ◌∙◌, arith, All,
  inl, inr, Bool-cases, ◌==◌,
}
use pg_shard_router.Base.Bytes.{Bytes, bytes_eq, bytes_beq_iff}
use pg_shard_router.Base.Dict.{get}
use pg_shard_router.Base.Int.{ℤ, int_eq, int_beq_iff}
use pg_shard_router.Cache.{Mapping, load, swap, clone}
use pg_shard_router.Cache.Copies.{clone-entries}
use pg_shard_router.Hashing.{ShardKey, bucket_for}
use pg_shard_router.Model.{BucketDef}
use pg_shard_router.Registry.Apply.{Json, apply_kv}
use pg_shard_router.Registry.Apply.Laws.{apply_kv-entries, bucket_after}
use pg_shard_router.Registry.Etcd.{
  apply_event, event_delete, apply_events, apply_batch, next_of, has_revision,
}
use pg_shard_router.Registry.Gateway.{event_put, WatchEvent, WatchBatch}
use pg_shard_router.Registry.Keys.{bucket_id_from_key, shards_prefix}
use pg_shard_router.Router.{Router, resolve}
use pg_shard_router.Router.Local.{AgreeAt, resolve-AgreeAt}

-- A key that names neither bucket `i` nor a shard that `b` names.
pub record Spares (i : ℤ) (o : Option BucketDef) (key : Bytes) : Type 0 where
  pub bucket : bucket_id_from_key key ≢ some i
  pub source : (b : BucketDef) → o ≡ some b → key ≢ shards_prefix ++ b.shard_id
  pub dest : (b : BucketDef) → o ≡ some b → key ≢ shards_prefix ++ b.dest_shard_id

bucket_after-other :
    (json : Json) (j : Option ℤ) (i : ℤ) (value : Bytes) (deleted : Bool) (old : Option BucketDef)
    → j ≢ some i
    → bucket_after json j i value deleted old ≡ old
bucket_after-other json none i value deleted old ne = refl
bucket_after-other json (some j) i value deleted old ne =
    ground (arith, int_beq_iff j i, λ (e : j ≡ i). ne (ap some e))

AgreeAt-trans : {i : ℤ} {m n k : Mapping} → AgreeAt i m n → AgreeAt i n k → AgreeAt i m k
AgreeAt-trans a b = record {
  bucket = b.bucket ∙ a.bucket;
  source = λ d e. b.source d (a.bucket ∙ e) ∙ a.source d e;
  dest = λ d e. b.dest d (a.bucket ∙ e) ∙ a.dest d e;
}

AgreeAt-same : (i : ℤ) (m : Mapping) → AgreeAt i m m
AgreeAt-same i m = record { bucket = refl; source = λ b e. refl; dest = λ b e. refl }

module _ (json : Json) (i : ℤ) where
  apply_kv-AgreeAt :
      (m : Mapping) (key value : Bytes) (deleted : Bool)
      → Spares i (get i m.buckets) key
      → AgreeAt i m (apply_kv json m key value deleted).0
  apply_kv-AgreeAt m key value deleted s =
      let (shards, buckets, _) = apply_kv-entries json m key value deleted in
      record {
        bucket =
            buckets i
            ∙ bucket_after-other json (bucket_id_from_key key) i value deleted (get i m.buckets)
                s.bucket;
        source = λ b e. ground (
          arith,
          shards b.shard_id,
          bytes_beq_iff key (shards_prefix ++ b.shard_id),
          s.source b e,
        );
        dest = λ b e. ground (
          arith,
          shards b.dest_shard_id,
          bytes_beq_iff key (shards_prefix ++ b.dest_shard_id),
          s.dest b e,
        );
      }

  apply_event-AgreeAt :
      (m : Mapping) (ev : WatchEvent)
      → Spares i (get i m.buckets) ev.key
      → AgreeAt i m (apply_event json m ev)
  unfolding apply_event
  apply_event-AgreeAt m ev s = elim (Bool-cases (ev.kind == event_put)) [
    | inl put ↦ rw put (apply_kv-AgreeAt m ev.key ev.value false s)
    | inr other ↦ elim (Bool-cases (ev.kind == event_delete)) [
      | inl gone ↦ rw (other, gone) (apply_kv-AgreeAt m ev.key [] true s)
      | inr neither ↦ rw (other, neither) (AgreeAt-same i m)
    ]
  ]

  apply_events-AgreeAt :
      (m : Mapping) (evs : List WatchEvent)
      → All (λ (ev : WatchEvent). Spares i (get i m.buckets) ev.key) evs
      → AgreeAt i m (apply_events json m evs)
  unfolding apply_events
  apply_events-AgreeAt m [] s = AgreeAt-same i m
  apply_events-AgreeAt m (ev ∷ evs) s =
      let first = apply_event-AgreeAt m ev s.0 in
      AgreeAt-trans first (apply_events-AgreeAt (apply_event json m ev) evs (rw (first.bucket) s.1))

-- A batch whose events name neither the bucket of a key, nor a shard that the bucket names, does not
-- change the answer for the key, whatever else it changes and whether its values decode.
pub apply_batch-resolve :
    (json : Json) (batch : WatchBatch) (rev : ℤ) (key : ShardKey) (r : Router) (m : Mapping)
    → load r.store ≡ some m
    → let i = bucket_for key r.bucket_count in
      All (λ (ev : WatchEvent). Spares i (get i m.buckets) ev.key) batch.events
      → resolve key (record r { store = (apply_batch json batch (r.store, rev)).0 }) ≡ resolve key r
unfolding apply_batch load swap next_of
apply_batch-resolve json batch rev key r m e s =
    let i = bucket_for key r.bucket_count in
    let (shards, buckets, _) = clone-entries m in
    let copied : AgreeAt i m (clone m) = record {
      bucket = buckets i;
      source = λ b f. shards b.shard_id;
      dest = λ b f. shards b.dest_shard_id;
    } in
    let next =
      AgreeAt-trans copied
        (apply_events-AgreeAt json i (clone m) batch.events (rw (buckets i) s)) in
    elim (Bool-cases (has_revision json batch)) [
      | inl stamped ↦
          resolve-AgreeAt key r (apply_batch json batch (r.store, rev)).0 m
            (record (apply_events json (clone m) batch.events) { revision = batch.revision }) e
            (rw (e, stamped) refl)
            (record { bucket = next.bucket; source = next.source; dest = next.dest })
      | inr early ↦
          resolve-AgreeAt key r (apply_batch json batch (r.store, rev)).0 m
            (apply_events json (clone m) batch.events) e (rw (e, early) refl) next
    ]
