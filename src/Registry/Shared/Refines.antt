-- ===== src/Registry/Shared/Refines.antt =====
-- On the maps in memory the loops do what they do on maps as values, in any order of their steps.
use pg_shard_router.Base.{
  ℕ, false, Option, none, some, List, [], ◌∷◌, ◌≡◌, refl, sym, ap, ◌∙◌, inl, inr, Bool-cases,
  if◌then◌else◌,
}
use pg_shard_router.Base.Int.{ℤ, int_eq, int_leb, pos, inc_int}
use pg_shard_router.Cache.{Mapping, Store}
use pg_shard_router.Cache.Heap.{Heap, view, make_mapping}
use pg_shard_router.Cache.Heap.Writes.{Writes, make_mapping-Makes, set_revision-Writes}
use pg_shard_router.Registry.Apply.{Json, apply_kv}
use pg_shard_router.Registry.Etcd.{apply_event, next_of}
use pg_shard_router.Registry.Shared.{
  Shared, Move, clones, applies, publishes, makes, stores, swaps, next_at, stamp_at, on_map, step,
  run,
}
use pg_shard_router.Registry.Shared.InPlace.{apply_kv_at-Writes, apply_event_at-Writes}
use pg_shard_router.Registry.Shared.Safe.{IsSafe, IsLive, AreApart}
use pg_shard_router.Registry.Shared.Snapshots.{view_of, next_at-Makes, next_at-fresh, step-Keeps}

-- The store, and the maps that the loops work on, as values.
pub record Values : Type 0 where
  pub store : Store
  pub watching : Option Mapping
  pub loading : Option Mapping
  pub watch_rev : ℤ

abbrev pub values : Shared → Values
values s = record {
  store = record { ptr = view_of s.heap s.ptr };
  watching = view_of s.heap s.watching;
  loading = view_of s.heap s.loading;
  watch_rev = s.watch_rev;
}

abbrev pub on_value : Option Mapping → (Mapping → Values) → Values → Values
on_value none g v = v
on_value (some m) g v = g m

-- A step where no map is shared.
module _ (json : Json) where
  unfoldable pub value_step : Values → Move → Values
  value_step v clones = record v { watching = some (next_of json v.store.ptr) }
  value_step v (applies ev) =
      on_value v.watching (λ m. record v { watching = some (apply_event json m ev) }) v
  value_step v (publishes rev) =
      on_value v.watching
        (λ m.
          if int_leb rev (pos 0)
          then record v { store = record { ptr = some m }; watching = none }
          else record v {
            store = record { ptr = some (record m { revision = rev }) };
            watching = none;
            watch_rev = inc_int rev;
          })
        v
  value_step v (makes rev) = record v {
    loading = some (record { revision = rev; shards = []; buckets = [] });
  }
  value_step v (stores kv) =
      on_value v.loading
        (λ m. record v { loading = some (apply_kv json m kv.key kv.value false).0 }) v
  value_step v swaps =
      on_value v.loading (λ m. record v { store = record { ptr = some m }; loading = none }) v

  unfoldable pub value_run : Values → List Move → Values
  unfolding value_step
  value_run v [] = v
  value_run v (m ∷ ms) = value_run (value_step v m) ms

view_of-same :
    (h h' : Heap) (o : Option ℕ)
    → ((p : ℕ) → o ≡ some p → view p h' ≡ view p h)
    → view_of h' o ≡ view_of h o
view_of-same h h' none k = refl
view_of-same h h' (some p) k = ap some (k p refl)

values_eq :
    {a b : Values}
    → a.store.ptr ≡ b.store.ptr
    → a.watching ≡ b.watching
    → a.loading ≡ b.loading
    → a.watch_rev ≡ b.watch_rev
    → a ≡ b
values_eq p w l r = cc

on_map-values :
    (s : Shared) (o : Option ℕ) (f : ℕ → Shared) (g : Mapping → Values)
    → ((q : ℕ) → o ≡ some q → values (f q) ≡ g (view q s.heap))
    → values (on_map o f s) ≡ on_value (view_of s.heap o) g (values s)
on_map-values s none f g k = refl
on_map-values s (some q) f g k = k q refl

-- A write to the map of one loop, seen from the other pointers.
others_same :
    (s : Shared) (q : ℕ) (h : Heap) (m : Mapping) (o mine : Option ℕ)
    → Writes q s.heap h m
    → IsLive s.heap o
    → mine ≡ some q
    → AreApart o mine
    → view_of h o ≡ view_of s.heap o
others_same s q h m o mine w live e apart =
    view_of-same s.heap h o (λ p f. w.elsewhere p (live p f) (apart p q f e))

mine_there :
    {q : ℕ} {h h' : Heap} {m : Mapping} (mine : Option ℕ)
    → Writes q h h' m
    → mine ≡ some q
    → view_of h' mine ≡ some m
mine_there {q} {h} {h'} mine w e = ap (view_of h') e ∙ ap some w.there

make_mapping-fresh : (rev : ℤ) (h : Heap) → (make_mapping rev h).1 ≡ h.next
unfolding make_mapping
make_mapping-fresh rev h = refl

module _ (json : Json) where
  step-values :
      (s : Shared) (m : Move) → IsSafe s → values (step json s m) ≡ value_step json (values s) m
  unfolding step value_step
  step-values s clones safe =
      let made = next_at-Makes json s safe in
      rw (next_at-fresh json s.ptr s.heap) (
        values_eq
          (view_of-same s.heap (next_at json s.ptr s.heap).0 s.ptr
            (λ p e. made.elsewhere p (safe.ptr_live p e)))
          (ap some made.there)
          (view_of-same s.heap (next_at json s.ptr s.heap).0 s.loading
            (λ p e. made.elsewhere p (safe.loading_live p e)))
          refl)
  step-values s (applies ev) safe = on_map-values s s.watching _ _ λ q e.
      let w = apply_event_at-Writes json q s.heap safe.separate (safe.watching_live q e) ev in
      values_eq (others_same s q _ _ s.ptr s.watching w safe.ptr_live e safe.watching_apart)
        (mine_there s.watching w e)
        (others_same s q _ _ s.loading s.watching w safe.loading_live e
          (λ a b f g same. safe.loops_apart b a g f (sym same)))
        refl
  step-values s (publishes rev) safe = on_map-values s s.watching _ _ λ q e.
      elim (Bool-cases (int_leb rev (pos 0))) [
        | inl early ↦ rw (early, stamp_at) refl
        | inr stamped ↦
            let w = set_revision-Writes q s.heap safe.separate (safe.watching_live q e) rev in
            rw (stamped, stamp_at)
              (values_eq (ap some w.there) refl
                (others_same s q _ _ s.loading s.watching w safe.loading_live e
                  (λ a b f g same. safe.loops_apart b a g f (sym same)))
                refl)
      ]
  step-values s (makes rev) safe =
      let made = make_mapping-Makes rev s.heap safe.separate in
      rw (make_mapping-fresh rev s.heap) (
        values_eq
          (view_of-same s.heap (make_mapping rev s.heap).0 s.ptr
            (λ p e. made.elsewhere p (safe.ptr_live p e)))
          (view_of-same s.heap (make_mapping rev s.heap).0 s.watching
            (λ p e. made.elsewhere p (safe.watching_live p e)))
          (ap some made.there) refl)
  step-values s (stores kv) safe = on_map-values s s.loading _ _ λ q e.
      let w =
        apply_kv_at-Writes json q s.heap safe.separate (safe.loading_live q e) kv.key kv.value
          false in
      values_eq (others_same s q _ _ s.ptr s.loading w safe.ptr_live e safe.loading_apart)
        (others_same s q _ _ s.watching s.loading w safe.watching_live e safe.loops_apart)
        (mine_there s.loading w e) refl
  step-values s swaps safe = on_map-values s s.loading _ _ λ q e. refl

  pub run-values :
      (ms : List Move) (s : Shared)
      → IsSafe s
      → values (run json s ms) ≡ value_run json (values s) ms
  unfolding run value_run
  run-values [] s safe = refl
  run-values (m ∷ ms) s safe =
      run-values ms (step json s m) (step-Keeps json s m safe).safe
      ∙ ap (λ v. value_run json v ms) (step-values s m safe)
