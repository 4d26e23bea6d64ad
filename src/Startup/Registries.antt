-- ===== src/Startup/Registries.antt =====
-- The two registries behind the interface of internal/registry/registry.go, and the part of `run` in
-- cmd/shard-router/main.go that uses it: `Start`, `Store`, and the deferred `Close`.
pub mod Either
use pg_shard_router.Api.{Server}
use pg_shard_router.Base.{
  ℕ, Bool, true, false, Option, none, some, ◌≡◌, ◌==◌, refl, sym, ap, ◌∙◌, inl, inr, if◌then◌else◌,
}
use pg_shard_router.Base.Bytes.{Bytes, bytes_eq}
use pg_shard_router.Base.Int.{ℤ}
use pg_shard_router.Base.Result.{Result, ok, err, ◌>>=◌, Result-cases}
use pg_shard_router.Cache.{Mapping, Store, load, ready, new_store}
use pg_shard_router.Config as Settings
use pg_shard_router.Config.{registry_mode_file}
use pg_shard_router.Registry.File as File
use pg_shard_router.Registry.File.{FileError}
use pg_shard_router.Registry.File.Visits.{start-ok, start-err}
use pg_shard_router.Registry.Interface.{Registry}
use pg_shard_router.Registry.Loops as Loops
use pg_shard_router.Registry.Loops.{EtcdRegistry, StartError, new_etcd_registry}
use pg_shard_router.Registry.Loops.Starts.{Outcome, start-Outcome}
use pg_shard_router.Startup.{
  World, StartupError, etcd_failed, file_failed, loaded_config, created, etcd_config, serve,
}

ready-loaded : (s : Store) (m : Mapping) → load s ≡ some m → ready s ≡ true
unfolding ready load
ready-loaded s m h = rw h refl

module _ (w : World) where
  -- `FileRegistry`, with the store as its state.
  start_file : Bytes → Store → Store × Result FileError (Unit {0})
  start_file path store = File.start w.decode_file w.visit (w.read_file path) store

  start_file-ok :
      (path : Bytes) (s : Store)
      → (start_file path s).1 ≡ ok tt
      → ready (start_file path s).0 ≡ true
  unfolding start_file
  start_file-ok path s h =
      let (m, e) = start-ok w.decode_file w.visit (w.read_file path) s h in
      ready-loaded (start_file path s).0 m e

  start_file-err :
      (path : Bytes) (s : Store) (e : FileError)
      → (start_file path s).1 ≡ err e
      → (start_file path s).0 ≡ s
  unfolding start_file
  start_file-err path s e h = start-err w.decode_file w.visit (w.read_file path) s e h

  pub file_registry : Bytes → Registry Store FileError
  unfolding start_file
  file_registry path = record {
    start = start_file path;
    store = λ s. s;
    close = λ s. s;
    syncing = λ s. false;
    start_loads = start_file-ok path;
    start_fails = λ s e h. (start_file-err path s e h, refl);
    close_keeps = λ s. refl;
    close_stops = λ s. refl;
  }

  forget :
      (EtcdRegistry × ℕ) × Result StartError ℤ → (EtcdRegistry × ℕ) × Result StartError (Unit {0})
  forget (s, ok rev) = (s, ok tt)
  forget (s, err e) = (s, err e)

  -- `EtcdRegistry`, with the number of its requests.
  start_etcd : EtcdRegistry × ℕ → (EtcdRegistry × ℕ) × Result StartError (Unit {0})
  unfolding forget
  start_etcd (reg, n) = forget (Loops.start w.json w.wire w.net reg n)

  forget-laws :
      (reg : EtcdRegistry) (p : (EtcdRegistry × ℕ) × Result StartError ℤ)
      → Outcome w.json reg p.0.0 p.1
      → ((forget p).1 ≡ ok tt → ready (forget p).0.0.store ≡ true)
        × ((e : StartError)
            → (forget p).1 ≡ err e
            → ((forget p).0.0.store ≡ reg.store) × ((forget p).0.0.running ≡ reg.running))
  unfolding forget
  forget-laws reg (s, ok rev) o =
      let sync = (o.succeeded rev refl).0 in
      (λ h. ready-loaded s.0.store sync.current sync.loaded, λ e h. cc)
  forget-laws reg (s, err e) o = (λ h. cc, λ f h. o.failed e refl)

  start_etcd-laws :
      (reg : EtcdRegistry) (n : ℕ)
      → ((start_etcd (reg, n)).1 ≡ ok tt → ready (start_etcd (reg, n)).0.0.store ≡ true)
        × ((e : StartError)
            → (start_etcd (reg, n)).1 ≡ err e
            → ((start_etcd (reg, n)).0.0.store ≡ reg.store)
              × ((start_etcd (reg, n)).0.0.running ≡ reg.running))
  unfolding start_etcd
  start_etcd-laws reg n =
      forget-laws reg (Loops.start w.json w.wire w.net reg n)
        (start-Outcome w.json w.wire w.net reg n)

  -- `Close` cancels the context of the two loops, if `Start` has made it.
  close_etcd : EtcdRegistry × ℕ → EtcdRegistry × ℕ
  close_etcd (reg, n) = (record reg { running = false }, n)

  pub etcd_registry : Registry (EtcdRegistry × ℕ) StartError
  unfolding start_etcd close_etcd
  etcd_registry = record {
    start = start_etcd;
    store = λ s. s.0.store;
    close = close_etcd;
    syncing = λ s. s.0.running;
    start_loads = λ s. (start_etcd-laws s.0 s.1).0;
    start_fails = λ s. (start_etcd-laws s.0 s.1).1;
    close_keeps = λ s. refl;
    close_stops = λ s. refl;
  }

-- `run` from `reg.Start` on to the server, whichever registry it is, with the deferred `reg.Close` where the start fails.
module _ {S E : Type 0} (reg : Registry S E) (wrap : E → StartupError) (cfg : Settings.Config) where
  started : S × Result E (Unit {0}) → S × Result StartupError Server
  started (s, ok _) = (s, ok (serve cfg (reg.store s) none).server)
  started (s, err e) = (reg.close s, err (wrap e))

  pub bring_up : S → S × Result StartupError Server
  unfolding started
  bring_up s = started (reg.start s)

-- `run`, with the registry of the mode.
run_with_etcd : World → Settings.Config → Result StartupError Server
run_with_etcd w cfg = do
  reg ← created (new_etcd_registry (etcd_config cfg))
  (bring_up (etcd_registry w) etcd_failed cfg (reg, 0)).1

pub run_registry : World → Result StartupError Server
unfolding run_with_etcd
run_registry w = do
  cfg ← loaded_config (Settings.load w.vars)
  if cfg.registry_mode == registry_mode_file
      then (bring_up (file_registry w cfg.mapping_file) file_failed cfg new_store).1
      else run_with_etcd w cfg
