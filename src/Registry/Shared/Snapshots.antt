-- ===== src/Registry/Shared/Snapshots.antt =====
-- A map that requests may read is never written to.
use pg_shard_router.Base.{
  ℕ, false, Option, none, some, List, [], ◌∷◌, ◌≡◌, ◌≢◌, refl, sym, ap, ◌∙◌, inl, inr, Option-cases,
  Bool-cases,
}
use pg_shard_router.Base.Int.{inc_int, ℤ, int_eq, int_leb, pos}
use pg_shard_router.Cache.{Mapping}
use pg_shard_router.Cache.Heap.{Heap, view, make_mapping, clone_at, set_revision}
use pg_shard_router.Cache.Heap.Writes.{
  Makes, make_mapping-Makes, clone_at-Makes, set_revision-Writes,
}
use pg_shard_router.Registry.Apply.{Json}
use pg_shard_router.Registry.Etcd.{next_of}
use pg_shard_router.Registry.Shared.{
  Shared, Move, clones, applies, publishes, makes, stores, swaps, next_at, stamp_at, step, run,
}
use pg_shard_router.Registry.Shared.InPlace.{apply_kv_at-Writes, apply_event_at-Writes}
use pg_shard_router.Registry.Shared.Safe.{
  IsSafe, IsPublished, Keeps, clones-Keeps, Makes-Keeps, Writes-Keeps, publishes-Keeps, swaps-Keeps,
  Keeps-same, Keeps-trans, on_map-Keeps,
}

-- The map that a pointer leads to, if there is one.
abbrev pub view_of : Heap → Option ℕ → Option Mapping
view_of h none = none
view_of h (some p) = some (view p h)

pub next_at-Makes :
    (json : Json) (s : Shared)
    → IsSafe s
    → Makes s.heap.next s.heap (next_at json s.ptr s.heap).0 (next_of json (view_of s.heap s.ptr))
unfolding next_at next_of
next_at-Makes json s ok = elim (Option-cases s.ptr) [
  | inl e ↦ rw (e, next_at) (make_mapping-Makes (pos 0) s.heap ok.separate)
  | inr (cur, e) ↦ rw (e, next_at) (clone_at-Makes cur s.heap ok.separate (ok.ptr_live cur e))
]

pub next_at-fresh : (json : Json) (o : Option ℕ) (h : Heap) → (next_at json o h).1 ≡ h.next
unfolding next_at make_mapping clone_at
next_at-fresh json none h = refl
next_at-fresh json (some p) h = refl

-- A map that is published is not the one that a loop works on.
not_watched : (s : Shared) (q : ℕ) → s.watching ≡ some q → (p : ℕ) → IsPublished p s → p ≢ q
not_watched s q e p shown same = shown.not_watching (e ∙ ap some (sym same))

not_loaded : (s : Shared) (q : ℕ) → s.loading ≡ some q → (p : ℕ) → IsPublished p s → p ≢ q
not_loaded s q e p shown same = shown.not_loading (e ∙ ap some (sym same))

-- What `publishes` writes before it sets the pointer.
stamp_at-Keeps :
    (json : Json) (q : ℕ) (rev : ℤ) (s : Shared)
    → IsSafe s
    → s.watching ≡ some q
    → Keeps s (stamp_at json q rev s) × ((stamp_at json q rev s).watching ≡ some q)
unfolding stamp_at
stamp_at-Keeps json q rev s ok mine = elim (Bool-cases (int_leb rev (pos 0))) [
  | inl e ↦ rw (e, stamp_at) (Keeps-same s ok, mine)
  | inr e ↦
      rw (e, stamp_at)
        (
          Writes-Keeps q s (set_revision q rev s.heap) _ (inc_int rev) ok
              (set_revision-Writes q s.heap ok.separate (ok.watching_live q mine) rev)
              (not_watched s q mine),
          mine,
        )
]

module _ (json : Json) where
  pub step-Keeps : (s : Shared) (m : Move) → IsSafe s → Keeps s (step json s m)
  unfolding step make_mapping
  step-Keeps s clones ok =
      rw (next_at-fresh json s.ptr s.heap)
        (clones-Keeps s (next_at json s.ptr s.heap).0 _ ok (next_at-Makes json s ok))
  step-Keeps s (applies ev) ok = on_map-Keeps s s.watching _ ok λ q e.
      Writes-Keeps q s _ _ s.watch_rev ok
        (apply_event_at-Writes json q s.heap ok.separate (ok.watching_live q e) ev)
        (not_watched s q e)
  step-Keeps s (publishes rev) ok = on_map-Keeps s s.watching _ ok λ q e.
      let (stamped, mine) = stamp_at-Keeps json q rev s ok e in
      Keeps-trans stamped (publishes-Keeps q (stamp_at json q rev s) stamped.safe mine)
  step-Keeps s (makes rev) ok =
      Makes-Keeps s (make_mapping rev s.heap).0 _ ok (make_mapping-Makes rev s.heap ok.separate)
  step-Keeps s (stores kv) ok = on_map-Keeps s s.loading _ ok λ q e.
      Writes-Keeps q s _ _ s.watch_rev ok
        (apply_kv_at-Writes json q s.heap ok.separate (ok.loading_live q e) kv.key kv.value false)
        (not_loaded s q e)
  step-Keeps s swaps ok = on_map-Keeps s s.loading _ ok λ q e. swaps-Keeps q s ok e

  pub run-Keeps : (ms : List Move) (s : Shared) → IsSafe s → Keeps s (run json s ms)
  unfolding run
  run-Keeps [] s ok = Keeps-same s ok
  run-Keeps (m ∷ ms) s ok =
      let first = step-Keeps s m ok in Keeps-trans first (run-Keeps ms (step json s m) first.safe)

  -- From a state in which no map is shared: a request that has loaded the pointer reads one map to its
  -- end. Whatever steps the two loops make meanwhile, in any order, at each single key, what it sees at
  -- the pointer does not change.
  pub snapshot_kept :
      (p : ℕ) (ms : List Move) (s : Shared)
      → IsSafe s
      → s.ptr ≡ some p
      → view p (run json s ms).heap ≡ view p s.heap
  snapshot_kept p ms s ok e = (run-Keeps ms s ok).same p (record {
    live = ok.ptr_live p e;
    not_watching = λ f. ok.watching_apart p p e f refl;
    not_loading = λ f. ok.loading_apart p p e f refl;
  })
