-- ===== src/Startup/Serves.antt =====
-- The service does not listen before it has a shard map.
use pg_shard_router.Base.{
  ℕ, false, Option, none, some, ◌≡◌, ◌≢◌, refl, subst, arith, inl, inr, ◌==◌, Bool-cases,
}
use pg_shard_router.Base.Bytes.{Bytes, bytes_eq}
use pg_shard_router.Base.Int.{ℤ, pos, int_leb}
use pg_shard_router.Base.Result.{Result, ok, err, >>=-eq-ok}
use pg_shard_router.Cache.{Mapping, Store, load, new_store}
use pg_shard_router.Config as Settings
use pg_shard_router.Config.{registry_mode_file}
use pg_shard_router.Hashing.{ShardKey, or_default_count}
use pg_shard_router.Registry.File as File
use pg_shard_router.Registry.File.{FileError}
use pg_shard_router.Registry.File.Visits.{start-ok}
use pg_shard_router.Registry.Loops as Loops
use pg_shard_router.Registry.Loops.{EtcdRegistry, StartError, new_etcd_registry}
use pg_shard_router.Registry.Loops.Starts.{start-Outcome}
use pg_shard_router.Router.{new, resolve, no_mapping}
use pg_shard_router.Router.Errors.{resolve-Unassigned}
use pg_shard_router.Startup.{
  World, Running, file_store, etcd_store, created, serve, run_file, run_etcd, loaded_config, run,
  etcd_config,
}

-- The store has a map.
abbrev pub IsLoaded : Store → Type 0
IsLoaded s = (m : Mapping) × (load s ≡ some m)

file_store-ok :
    (p : Store × Result FileError (Unit {0})) (store : Store)
    → file_store p ≡ ok store
    → (p.0 ≡ store) × (p.1 ≡ ok tt)
unfolding file_store
file_store-ok (s, ok _) store h = (cc, refl)
file_store-ok (s, err e) store h = cc

file_store-IsLoaded :
    (w : World) (text : Option Bytes) (store : Store)
    → file_store (File.start w.decode_file w.visit text new_store) ≡ ok store
    → IsLoaded store
file_store-IsLoaded w text store h =
    let (same, done) = file_store-ok (File.start w.decode_file w.visit text new_store) store h in
    subst IsLoaded same (start-ok w.decode_file w.visit text new_store done)

etcd_store-ok :
    (p : (EtcdRegistry × ℕ) × Result StartError ℤ) (started : EtcdRegistry × ℕ × ℤ)
    → etcd_store p ≡ ok started
    → (p.0.0 ≡ started.0) × (p.1 ≡ ok started.2)
unfolding etcd_store
etcd_store-ok ((reg, n), ok rev) started h = (cc, cc)
etcd_store-ok ((reg, n), err e) started h = cc

etcd_store-IsLoaded :
    (w : World) (reg : EtcdRegistry) (started : EtcdRegistry × ℕ × ℤ)
    → etcd_store (Loops.start w.json w.wire w.net reg 0) ≡ ok started
    → IsLoaded started.0.store
etcd_store-IsLoaded w reg started h =
    let (same, done) = etcd_store-ok (Loops.start w.json w.wire w.net reg 0) started h in
    let sync = ((start-Outcome w.json w.wire w.net reg 0).succeeded started.2 done).0 in
    subst (λ (r : EtcdRegistry). IsLoaded r.store) same (sync.current, sync.loaded)

-- The service is ready to route.
pub record IsServing (u : Running) : Type 0 where
  pub loaded : (m : Mapping) × (load u.server.router.store ≡ some m)
  pub positive : int_leb u.server.router.bucket_count (pos 0) ≡ false
  pub routes : (key : ShardKey) → resolve key u.server.router ≢ err no_mapping

or_default_count_positive : (n : ℤ) → int_leb (or_default_count n) (pos 0) ≡ false
unfolding or_default_count
or_default_count_positive n = ground arith

pub serve-IsServing :
    (cfg : Settings.Config) (store : Store) (etcd : Option (EtcdRegistry × ℕ × ℤ))
    → IsLoaded store
    → IsServing (serve cfg store etcd)
unfolding serve new
serve-IsServing cfg store etcd (m, l) = record {
  loaded = (m, l);
  positive = or_default_count_positive cfg.bucket_count;
  routes = λ key h. cc (l, (resolve-Unassigned key (new store cfg.bucket_count) (pos 0)).0.0 h);
}

run_file-IsServing :
    (w : World) (cfg : Settings.Config) (u : Running) → run_file w cfg ≡ ok u → IsServing u
unfolding run_file
run_file-IsServing w cfg u h =
    let text = w.read_file cfg.mapping_file in
    let (store, started, served) =
      >>=-eq-ok (file_store (File.start w.decode_file w.visit text new_store)) _ h in
    let same : serve cfg store none ≡ u = cc served in
    subst IsServing same (serve-IsServing cfg store none (file_store-IsLoaded w text store started))

run_etcd-IsServing :
    (w : World) (cfg : Settings.Config) (u : Running) → run_etcd w cfg ≡ ok u → IsServing u
unfolding run_etcd
run_etcd-IsServing w cfg u h =
    let (reg, _, rest) = >>=-eq-ok (created (new_etcd_registry (etcd_config cfg))) _ h in
    let (started, done, served) =
      >>=-eq-ok (etcd_store (Loops.start w.json w.wire w.net reg 0)) _ rest in
    let same : serve cfg started.0.store (some started) ≡ u = cc served in
    subst IsServing same
      (serve-IsServing cfg started.0.store (some started) (etcd_store-IsLoaded w reg started done))

-- If `run` comes to listen, a map is loaded, the number of buckets is positive, and no key
-- is refused for a missing map, whichever registry is configured and whatever the network and files.
pub run-IsServing : (w : World) (u : Running) → run w ≡ ok u → IsServing u
unfolding run
run-IsServing w u h =
    let (cfg, _, chosen) = >>=-eq-ok (loaded_config (Settings.load w.vars)) _ h in
    elim (Bool-cases (cfg.registry_mode == registry_mode_file)) [
      | inl file ↦ run_file-IsServing w cfg u (rw file at chosen)
      | inr other ↦ run_etcd-IsServing w cfg u (rw other at chosen)
    ]
