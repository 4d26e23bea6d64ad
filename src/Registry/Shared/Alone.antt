-- ===== src/Registry/Shared/Alone.antt =====
-- One loop that is not interrupted does to the store what `apply_batch` and `load_all` say.
use pg_shard_router.Base.{some, List, [], ◌∷◌, ◌++◌, ◌≡◌, refl, ap, ◌∙◌, inl, inr, Bool-cases, map}
use pg_shard_router.Base.Int.{ℤ, int_leb, pos}
use pg_shard_router.Base.Result.{ok}
use pg_shard_router.Cache.{Mapping, load, swap}
use pg_shard_router.Registry.Apply.{Json}
use pg_shard_router.Registry.Etcd.{apply_events, apply_batch, apply_all, load_all, next_of}
use pg_shard_router.Registry.Gateway.{DecodedKv, WatchEvent, WatchBatch}
use pg_shard_router.Registry.Shared.{
  Shared, Move, clones, applies, publishes, makes, stores, swaps, run,
}
use pg_shard_router.Registry.Shared.Refines.{Values, values, value_step, value_run, run-values}
use pg_shard_router.Registry.Shared.Safe.{IsSafe}

-- The steps of `watchLoop` for one batch, and those of `loadAll` for a response.
unfoldable pub batch_moves : WatchBatch → List Move
batch_moves b = clones ∷ (map applies b.events ++ publishes b.revision ∷ [])

unfoldable pub load_moves : List DecodedKv → ℤ → List Move
load_moves kvs rev = makes rev ∷ (map stores kvs ++ swaps ∷ [])

module _ (json : Json) where
  value_run-append :
      (ms ns : List Move) (v : Values)
      → value_run json v (ms ++ ns) ≡ value_run json (value_run json v ms) ns
  unfolding value_run
  value_run-append [] ns v = refl
  value_run-append (m ∷ ms) ns v = value_run-append ms ns (value_step json v m)

  value_run-applies :
      (evs : List WatchEvent) (v : Values) (m : Mapping)
      → value_run json (record v { watching = some m }) (map applies evs)
        ≡ record v { watching = some (apply_events json m evs) }
  unfolding value_run value_step apply_events
  value_run-applies [] v m = refl
  value_run-applies (ev ∷ evs) v m = value_run-applies evs v _

  value_run-stores :
      (kvs : List DecodedKv) (v : Values) (m : Mapping)
      → value_run json (record v { loading = some m }) (map stores kvs)
        ≡ record v { loading = some (apply_all json m kvs) }
  unfolding value_run value_step apply_all
  value_run-stores [] v m = refl
  value_run-stores (kv ∷ kvs) v m = value_run-stores kvs v _

  batch_values :
      (b : WatchBatch) (v : Values)
      → let w = value_run json v (batch_moves b) in
        (w.store, w.watch_rev) ≡ apply_batch json b (v.store, v.watch_rev)
  unfolding batch_moves value_run value_step apply_batch load swap
  batch_values b v =
      let m = next_of json v.store.ptr in
      let started : Values = record v { watching = some m } in
      let same =
        value_run-append (map applies b.events) (publishes b.revision ∷ []) started
        ∙ ap (λ x. value_run json x (publishes b.revision ∷ [])) (value_run-applies b.events v m) in
      ap (λ (x : Values). (x.store, x.watch_rev)) same
      ∙ elim (Bool-cases (int_leb b.revision (pos 0))) [ inl e ↦ rw e refl | inr e ↦ rw e refl ]

  load_values :
      (kvs : List DecodedKv) (rev : ℤ) (v : Values)
      → (value_run json v (load_moves kvs rev)).store ≡ (load_all json (ok (kvs, rev)) v.store).0
  unfolding load_moves value_run value_step load_all swap
  load_values kvs rev v =
      let m : Mapping = record { revision = rev; shards = []; buckets = [] } in
      let same =
        value_run-append (map stores kvs) (swaps ∷ []) (record v { loading = some m })
        ∙ ap (λ x. value_run json x (swaps ∷ [])) (value_run-stores kvs v m) in
      ap (λ (x : Values). x.store) same

  -- From any state in which no map is shared, a batch or a load that is not interrupted leaves in
  -- memory the store, and the batch the revision of the next watch, that `apply_batch` and
  -- `load_all` compute on maps as values.
  pub alone_refines :
      (s : Shared)
      → IsSafe s
      → ((b : WatchBatch)
          → let t = values (run json s (batch_moves b)) in
            (t.store, t.watch_rev) ≡ apply_batch json b ((values s).store, s.watch_rev))
        × ((kvs : List DecodedKv) (rev : ℤ)
            → (values (run json s (load_moves kvs rev))).store
              ≡ (load_all json (ok (kvs, rev)) (values s).store).0)
  alone_refines s safe = (
    λ b.
        ap (λ (x : Values). (x.store, x.watch_rev)) (run-values json (batch_moves b) s safe)
        ∙ batch_values b (values s),
    λ kvs rev.
        ap (λ (x : Values). x.store) (run-values json (load_moves kvs rev) s safe)
        ∙ load_values kvs rev (values s),
  )
