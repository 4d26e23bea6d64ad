-- ===== src/Registry/Etcd/Revisions.antt =====
-- The revision that the next watch starts from, and the map that is kept through failures.
use pg_shard_router.Base.{
  true, false, some, List, [], ◌∷◌, ◌≡◌, inl, inr, refl, sym, ap, ◌∙◌, arith, Bool-cases,
}
use pg_shard_router.Registry.Gateway.{RangeError}
use pg_shard_router.Base.Int.{ℤ, inc_int}
use pg_shard_router.Base.Result.{Result, ok, err}
use pg_shard_router.Cache.{Mapping, Store, load, swap, ready}
use pg_shard_router.Cache.Copies.{clone-entries}
use pg_shard_router.Registry.Apply.{Json, apply_kv}
use pg_shard_router.Registry.Apply.Laws.{apply_kv-entries}
use pg_shard_router.Registry.Etcd.{
  DecodedKv, WatchEvent, WatchBatch, apply_all, load_all, apply_event, apply_events, apply_batch,
  consume, next_of, has_revision,
}

module _ (json : Json) where
  -- The store has a map, and the next watch starts just after that map's revision.
  pub record InSync (s : Store × ℤ) : Type 0 where
    pub current : Mapping
    pub loaded : load s.0 ≡ some current
    pub next : s.1 ≡ inc_int current.revision

  revision-apply_event :
      (m : Mapping) (ev : WatchEvent) → (apply_event json m ev).revision ≡ m.revision
  unfolding apply_event
  revision-apply_event m ev = ground (
    arith,
    (apply_kv-entries json m ev.key ev.value false).2,
    (apply_kv-entries json m ev.key [] true).2,
  )

  revision-apply_events :
      (m : Mapping) (evs : List WatchEvent) → (apply_events json m evs).revision ≡ m.revision
  unfolding apply_events
  revision-apply_events m [] = refl
  revision-apply_events m (ev ∷ evs) =
      revision-apply_events (apply_event json m ev) evs ∙ revision-apply_event m ev

  revision-apply_all :
      (m : Mapping) (kvs : List DecodedKv) → (apply_all json m kvs).revision ≡ m.revision
  unfolding apply_all
  revision-apply_all m [] = refl
  revision-apply_all m (e ∷ kvs) =
      revision-apply_all (apply_kv json m e.key e.value false).0 kvs
      ∙ (apply_kv-entries json m e.key e.value false).2

  kept_revision :
      (evs : List WatchEvent) (store : Store) {rev : ℤ} (s : InSync (store, rev))
      → (apply_events json (next_of json (load store)) evs).revision ≡ s.current.revision
  unfolding next_of
  kept_revision evs store s =
      revision-apply_events (next_of json (load store)) evs
      ∙ (rw s.loaded (clone-entries s.current).2)

  apply_batch-InSync :
      (batch : WatchBatch) (store : Store) (rev : ℤ)
      → InSync (store, rev)
      → InSync (apply_batch json batch (store, rev))
  unfolding apply_batch load swap next_of
  apply_batch-InSync batch store rev s = elim (Bool-cases (has_revision json batch)) [
    | inl e ↦ rw e (record {
      current = record (apply_events json (next_of json (load store)) batch.events) {
        revision = batch.revision;
      };
      loaded = refl;
      next = refl;
    })
    | inr e ↦ rw e (record {
      current = apply_events json (next_of json (load store)) batch.events;
      loaded = refl;
      next = s.next ∙ ap inc_int (sym (kept_revision batch.events store s));
    })
  ]

  consume-InSync :
      (batches : List WatchBatch) (s : Store × ℤ) → InSync s → InSync (consume json batches s)
  unfolding consume
  consume-InSync [] s h = h
  consume-InSync (b ∷ bs) (store, rev) h = elim (Bool-cases b.canceled) [
    | inl e ↦ rw e h
    | inr e ↦
        rw e
          (consume-InSync bs (apply_batch json b (store, rev)) (apply_batch-InSync b store rev h))
  ]

  -- After a load and the batches of a watch begun after it, canceled or not, with a revision or
  -- without, the next watch starts at the revision after that of the map in the store.
  pub load-consume-InSync :
      (kvs : List DecodedKv) (rev : ℤ) (store : Store) (batches : List WatchBatch)
      → InSync (consume json batches ((load_all json (ok (kvs, rev)) store).0, inc_int rev))
  load-consume-InSync kvs rev store batches = consume-InSync batches _ (
      unfold load_all load swap in
      record {
        current = apply_all json (record { revision = rev; shards = []; buckets = [] }) kvs;
        loaded = refl;
        next = ap inc_int (sym (revision-apply_all _ kvs));
      })

  ready-apply_batch :
      (batch : WatchBatch) (s : Store × ℤ) → ready (apply_batch json batch s).0 ≡ true
  unfolding apply_batch ready swap
  ready-apply_batch batch s = ground arith

  ready-consume :
      (batches : List WatchBatch) (s : Store × ℤ)
      → ready s.0 ≡ true
      → ready (consume json batches s).0 ≡ true
  unfolding consume
  ready-consume [] s h = h
  ready-consume (b ∷ bs) s h =
      ground (arith, h, ready-consume bs (apply_batch json b s) (ready-apply_batch b s))

  -- Failures leave the last map in place. A load that fails does not touch the store; and from a
  -- store that is ready, neither a load, successful or not, nor any batches make it not ready.
  ready_kept :
      (store : Store) (rev : ℤ)
      → ((e : RangeError) → (load_all json (err e) store).0 ≡ store)
        × (ready store ≡ true
            → ((r : Result RangeError (List DecodedKv × ℤ))
                → ready (load_all json r store).0 ≡ true)
              × ((batches : List WatchBatch) → ready (consume json batches (store, rev)).0 ≡ true))
  unfolding load_all
  ready_kept store rev =
      (λ e. refl, λ h. (ready_load h, λ batches. ready-consume batches (store, rev) h))
    where
      ready_load :
          ready store ≡ true
          → (r : Result RangeError (List DecodedKv × ℤ)) → ready (load_all json r store).0 ≡ true
      ready_load h (ok (kvs, rev)) = unfold ready swap in refl
      ready_load h (err e) = h
