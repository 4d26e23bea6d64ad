-- ===== src/Registry/Etcd/Watch.antt =====
-- A full load and the batches of a watch after it, against what has happened in etcd.
use pg_shard_router.Base.{
  false, Option, some, List, [], ◌∷◌, ◌++◌, ◌≡◌, inl, inr, refl, sym, ◌∙◌, ap, ◌==◌, Bool-cases,
  All, All-append_left, All-append_right, map, subst,
}
use pg_shard_router.Base.Bytes.{Bytes, bytes_eq, bytes_beq, bytes_beq_iff}
use pg_shard_router.Base.Dict.{get}
use pg_shard_router.Base.Int.{ℤ, inc_int, int_eq}
use pg_shard_router.Base.Result.{ok}
use pg_shard_router.Cache.{Mapping, Store, clone, load, swap}
use pg_shard_router.Cache.Copies.{clone-entries}
use pg_shard_router.Registry.Keys.{bucket_id_from_key, shards_prefix}
use pg_shard_router.Registry.Apply.Laws.{shard_of, bucket_of}
use pg_shard_router.Model.{ShardDef, BucketDef}
use pg_shard_router.Registry.Apply.{Json, apply_kv}
use pg_shard_router.Registry.Etcd.{
  DecodedKv, WatchEvent, WatchBatch, event_put, event_delete, apply_all, load_all, apply_event,
  apply_events, apply_batch, consume, next_of, has_revision,
}
use pg_shard_router.Registry.Etcd.Follows.{
  and_then, Keyspace, happened, Tracks, IsWellFormed, put-Tracks, delete-Tracks,
}

unfoldable pub all_happened : Keyspace → List WatchEvent → Keyspace
all_happened kvs [] = kvs
all_happened kvs (ev ∷ evs) = all_happened (happened kvs ev) evs

-- A pair of a range response, as the event that wrote it.
abbrev pub as_put : DecodedKv → WatchEvent
as_put kv = record { kind = event_put; key = kv.key; value = kv.value }

-- The key-space that a range response lists.
abbrev pub listed : List DecodedKv → Keyspace
listed kvs = all_happened [] (map as_put kvs)

unfoldable pub events_of : List WatchBatch → List WatchEvent
events_of [] = []
events_of (batch ∷ batches) = batch.events ++ events_of batches

pub all_happened-append :
    (kvs : Keyspace) (evs more : List WatchEvent)
    → all_happened kvs (evs ++ more) ≡ all_happened (all_happened kvs evs) more
unfolding all_happened
all_happened-append kvs [] more = refl
all_happened-append kvs (ev ∷ evs) more = all_happened-append (happened kvs ev) evs more

-- The entries of the map in a store; none where no map is loaded.
abbrev pub shard_at : Store → Bytes → Option ShardDef
shard_at s j = and_then (load s) (λ m. get j m.shards)

abbrev pub bucket_at : Store → ℤ → Option BucketDef
bucket_at s i = and_then (load s) (λ m. get i m.buckets)

module _ (json : Json) (name : ℤ → Bytes) where
  event-Tracks :
      (kvs : Keyspace) (m : Mapping) (ev : WatchEvent)
      → Tracks json name kvs m
      → IsWellFormed json name ev
      → Tracks json name (happened kvs ev) (apply_event json m ev)
  unfolding happened apply_event
  event-Tracks kvs m ev t w = elim (Bool-cases (ev.kind == event_put)) [
    | inl p ↦ rw p (
        put-Tracks json name t ev.key w.named ev.value
          (w.decodes ((bytes_beq_iff ev.kind event_put).0 p)))
    | inr np ↦ elim (Bool-cases (ev.kind == event_delete)) [
      | inl d ↦ rw (np, d) (delete-Tracks json name t ev.key w.named)
      | inr nd ↦ rw (np, nd) t
    ]
  ]

  events-Tracks :
      (kvs : Keyspace) (m : Mapping) (evs : List WatchEvent)
      → Tracks json name kvs m
      → All (IsWellFormed json name) evs
      → Tracks json name (all_happened kvs evs) (apply_events json m evs)
  unfolding all_happened apply_events
  events-Tracks kvs m [] t w = t
  events-Tracks kvs m (ev ∷ evs) t w =
      events-Tracks (happened kvs ev) (apply_event json m ev) evs (event-Tracks kvs m ev t w.0) w.1

  apply_all-events :
      (m : Mapping) (kvs : List DecodedKv)
      → apply_all json m kvs ≡ apply_events json m (map as_put kvs)
  unfolding apply_all apply_events bytes_beq
  apply_all-events m [] = refl
  apply_all-events m (kv ∷ kvs) = apply_all-events (apply_kv json m kv.key kv.value false).0 kvs

  -- Lookups decide whether a map tracks.
  Tracks-same :
      {kvs : Keyspace} {m m' : Mapping}
      → ((j : Bytes) → get j m'.shards ≡ get j m.shards)
      → ((i : ℤ) → get i m'.buckets ≡ get i m.buckets)
      → Tracks json name kvs m
      → Tracks json name kvs m'
  Tracks-same s b t = record {
    shards = λ j. s j ∙ t.shards j;
    buckets = λ i known. b i ∙ t.buckets i known;
  }

  Tracks-empty :
      (rev : ℤ) → Tracks json name [] (record { revision = rev; shards = []; buckets = [] })
  Tracks-empty rev = record {
    shards = λ j. (unfold get in refl);
    buckets = λ i k. (unfold get in refl);
  }

  -- The store has a map that tracks the key-space.
  pub record Follows (kvs : Keyspace) (store : Store) : Type 0 where
    pub current : Mapping
    pub loaded : load store ≡ some current
    pub tracks : Tracks json name kvs current

  pub load_all-Follows :
      (kvs : List DecodedKv) (rev : ℤ) (s : Store)
      → All (IsWellFormed json name) (map as_put kvs)
      → Follows (listed kvs) (load_all json (ok (kvs, rev)) s).0
  unfolding load_all load swap
  load_all-Follows kvs rev s w = record {
    current = apply_all json (record { revision = rev; shards = []; buckets = [] }) kvs;
    loaded = refl;
    tracks =
        subst (Tracks json name (listed kvs)) (sym (apply_all-events _ kvs))
          (events-Tracks [] _ (map as_put kvs) (Tracks-empty rev) w);
  }

  next-Tracks :
      (kvs : Keyspace) (evs : List WatchEvent) (store : Store)
      → Follows kvs store
      → All (IsWellFormed json name) evs
      → Tracks json name (all_happened kvs evs) (apply_events json (next_of json (load store)) evs)
  unfolding next_of
  next-Tracks kvs evs store f w =
      let (same_shards, same_buckets, _) = clone-entries f.current in
      rw f.loaded
        (events-Tracks kvs (clone f.current) evs (Tracks-same same_shards same_buckets f.tracks) w)

  pub apply_batch-Follows :
      (kvs : Keyspace) (batch : WatchBatch) (store : Store) (rev : ℤ)
      → Follows kvs store
      → All (IsWellFormed json name) batch.events
      → Follows (all_happened kvs batch.events) (apply_batch json batch (store, rev)).0
  unfolding apply_batch load swap
  apply_batch-Follows kvs batch store rev f w =
      let next = next-Tracks kvs batch.events store f w in
      elim (Bool-cases (has_revision json batch)) [
        | inl e ↦ rw e (record {
          current = record (apply_events json (next_of json (load store)) batch.events) {
            revision = batch.revision;
          };
          loaded = refl;
          tracks = Tracks-same (λ j. refl) (λ i. refl) next;
        })
        | inr e ↦ rw e (record {
          current = apply_events json (next_of json (load store)) batch.events;
          loaded = refl;
          tracks = next;
        })
      ]

  consume-Follows :
      (kvs : Keyspace) (batches : List WatchBatch) (s : Store × ℤ)
      → Follows kvs s.0
      → All (λ b. b.canceled ≡ false) batches
      → All (IsWellFormed json name) (events_of batches)
      → Follows (all_happened kvs (events_of batches)) (consume json batches s).0
  unfolding consume events_of all_happened
  consume-Follows kvs [] s f c w = f
  consume-Follows kvs (b ∷ bs) s f c w =
      let here = All-append_left (IsWellFormed json name) b.events (events_of bs) w in
      let later = All-append_right (IsWellFormed json name) b.events (events_of bs) w in
      let rest =
        consume-Follows (all_happened kvs b.events) bs (apply_batch json b s)
          (apply_batch-Follows kvs b s.0 s.1 f here) c.1 later in
      rw (c.0, all_happened-append kvs b.events (events_of bs)) rest

  -- Load, then watch: if every pair listed and every event is well formed (what is put decodes, and
  -- each bucket has one key) and no batch is canceled, then after any batches the store
  -- has a map, and each shard and each bucket of it is what its key holds in etcd's key-space by
  -- then, decoded.
  load-watch-Follows :
      (kvs : List DecodedKv) (rev : ℤ) (store : Store) (batches : List WatchBatch)
      → All (IsWellFormed json name) (map as_put kvs)
      → All (λ b. b.canceled ≡ false) batches
      → All (IsWellFormed json name) (events_of batches)
      → Follows
          (all_happened (listed kvs) (events_of batches))
          (consume json batches ((load_all json (ok (kvs, rev)) store).0, inc_int rev)).0
  load-watch-Follows kvs rev store batches l c w =
      consume-Follows (listed kvs) batches _ (load_all-Follows kvs rev store l) c w

  Follows-shard :
      {kvs : Keyspace} {s : Store}
      → Follows kvs s
      → (j : Bytes) → shard_at s j ≡ and_then (get (shards_prefix ++ j) kvs) (shard_of json j)
  Follows-shard f j = rw f.loaded (f.tracks.shards j)

  Follows-bucket :
      {kvs : Keyspace} {s : Store}
      → Follows kvs s
      → (i : ℤ) → bucket_id_from_key (name i) ≡ some i
      → bucket_at s i ≡ and_then (get (name i) kvs) (bucket_of json i)
  Follows-bucket f i known = rw f.loaded (f.tracks.buckets i known)

  -- Under the same conditions the map that is kept up to date by watching answers every lookup, of
  -- any shard and of any bucket that has a key, as a fresh load of what etcd holds by then does.
  pub watch-eq-reload :
      (kvs now : List DecodedKv) (rev later : ℤ) (store other : Store) (batches : List WatchBatch)
      → All (IsWellFormed json name) (map as_put kvs)
      → All (IsWellFormed json name) (map as_put now)
      → All (λ b. b.canceled ≡ false) batches
      → All (IsWellFormed json name) (events_of batches)
      → ((k : Bytes) → get k (all_happened (listed kvs) (events_of batches)) ≡ get k (listed now))
      → let watched =
          (consume json batches ((load_all json (ok (kvs, rev)) store).0, inc_int rev)).0 in
        let reloaded = (load_all json (ok (now, later)) other).0 in
        ((j : Bytes) → shard_at watched j ≡ shard_at reloaded j)
        × ((i : ℤ)
            → bucket_id_from_key (name i) ≡ some i
            → bucket_at watched i ≡ bucket_at reloaded i)
  watch-eq-reload kvs now rev later store other batches l l' c w same =
      let f = load-watch-Follows kvs rev store batches l c w in
      let g = load_all-Follows now later other l' in
      (
        λ j.
            Follows-shard f j
            ∙ ap (λ o. and_then o (shard_of json j)) (same (shards_prefix ++ j))
            ∙ sym (Follows-shard g j),
        λ i known.
            Follows-bucket f i known
            ∙ ap (λ o. and_then o (bucket_of json i)) (same (name i))
            ∙ sym (Follows-bucket g i known),
      )
