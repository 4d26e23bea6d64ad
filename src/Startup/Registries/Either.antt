-- ===== src/Startup/Registries/Either.antt =====
-- What `run` makes of a registry, whichever it is.
use pg_shard_router.Api.{Server}
use pg_shard_router.Base.{
  ℕ, true, false, none, some, ◌≡◌, ◌≢◌, ◌==◌, refl, subst, ◌∙◌, inl, inr, Bool-cases, Option-cases,
}
use pg_shard_router.Base.Bytes.{Bytes, bytes_eq}
use pg_shard_router.Base.Int.{ℤ}
use pg_shard_router.Base.Result.{Result, ok, err, ◌>>=◌, Result-cases}
use pg_shard_router.Cache.{Mapping, Store, load, ready, new_store}
use pg_shard_router.Config as Settings
use pg_shard_router.Config.{registry_mode_file}
use pg_shard_router.Hashing.{ShardKey}
use pg_shard_router.Registry.File.{FileError}
use pg_shard_router.Registry.Interface.{Registry}
use pg_shard_router.Registry.Loops as Loops
use pg_shard_router.Registry.Loops.{EtcdRegistry, StartError, new_etcd_registry}
use pg_shard_router.Router.{new, resolve, no_mapping}
use pg_shard_router.Startup.{
  World, Running, StartupError, run, run_file, run_etcd, file_store, etcd_store, etcd_failed,
  file_failed, loaded_config, created, etcd_config, serve,
}
use pg_shard_router.Startup.Serves.{serve-IsServing}
use pg_shard_router.Startup.Registries.{
  file_registry, etcd_registry, started, bring_up, run_registry, start_file, start_etcd, forget,
  run_with_etcd,
}

-- What a start may leave.
record IsUp {S E : Type 0} (reg : Registry S E) (s s' : S) (r : Result StartupError Server)
    : Type 0 where
  routes :
      (server : Server) (key : ShardKey)
      → r ≡ ok server
      → resolve key server.router ≢ err no_mapping
  reads_store : (server : Server) → r ≡ ok server → server.router.store ≡ reg.store s'
  leaves : (e : StartupError) → r ≡ err e → (reg.store s' ≡ reg.store s) × (reg.syncing s' ≡ false)

loaded_of : (s : Store) → ready s ≡ true → (m : Mapping) × (load s ≡ some m)
unfolding ready load
loaded_of s h = elim (Option-cases s.ptr) [ inl missing ↦ cc | inr known ↦ known ]

server_eq : (x y : Server) → ◌≡◌ {A = Result StartupError Server} (ok x) (ok y) → x ≡ y
server_eq x y h = cc

module _ {S E : Type 0} (reg : Registry S E) (wrap : E → StartupError) (cfg : Settings.Config) where
  started-IsUp :
      (s : S) (p : S × Result E (Unit {0}))
      → (p.1 ≡ ok tt → ready (reg.store p.0) ≡ true)
      → ((e : E) → p.1 ≡ err e → (reg.store p.0 ≡ reg.store s) × (reg.syncing p.0 ≡ reg.syncing s))
      → let (s', r) = started reg wrap cfg p in IsUp reg s s' r
  unfolding started
  started-IsUp s (s', ok _) loads fails = record {
    routes = λ server key h.
        subst (λ (x : Server). resolve key x.router ≢ err no_mapping) (server_eq _ server h)
          ((serve-IsServing cfg (reg.store s') none (loaded_of (reg.store s') (loads refl))).routes
            key);
    reads_store = λ server h.
        subst (λ (x : Server). x.router.store ≡ reg.store s') (server_eq _ server h)
          (unfold serve new in refl);
    leaves = λ e h. cc;
  }
  started-IsUp s (s', err e) loads fails = record {
    routes = λ server key h. cc;
    reads_store = λ server h. cc;
    leaves = λ f h. (reg.close_keeps s' ∙ (fails e refl).0, reg.close_stops s');
  }

  -- Whichever registry it is: a start that has succeeded leaves a router that reads the registry's store and refuses
  -- no key for a missing map; one that has failed leaves the store as it was, and no goroutine that changes it.
  bring_up-IsUp : (s : S) → let (s', r) = bring_up reg wrap cfg s in IsUp reg s s' r
  unfolding bring_up
  bring_up-IsUp s = started-IsUp s (reg.start s) (reg.start_loads s) (reg.start_fails s)

-- What answers requests of what runs.
abbrev server_of : Result StartupError Running → Result StartupError Server
server_of (ok u) = ok u.server
server_of (err e) = err e

file_started :
    (w : World) (path : Bytes) (cfg : Settings.Config) (p : Store × Result FileError (Unit {0}))
    → server_of (file_store p >>= λ store. ok (serve cfg store none))
      ≡ (started (file_registry w path) file_failed cfg p).1
unfolding started file_store file_registry
file_started w path cfg (s, ok _) = refl
file_started w path cfg (s, err e) = refl

etcd_started :
    (w : World) (cfg : Settings.Config) (p : (EtcdRegistry × ℕ) × Result StartError ℤ)
    → server_of (etcd_store p >>= λ st. ok (serve cfg st.0.store (some st)))
      ≡ (started (etcd_registry w) etcd_failed cfg (forget w p)).1
unfolding started etcd_store etcd_registry forget serve
etcd_started w cfg ((reg, n), ok rev) = refl
etcd_started w cfg ((reg, n), err e) = refl

run_file_started :
    (w : World) (cfg : Settings.Config)
    → server_of (run_file w cfg)
      ≡ (bring_up (file_registry w cfg.mapping_file) file_failed cfg new_store).1
unfolding run_file bring_up file_registry start_file
run_file_started w cfg = file_started w cfg.mapping_file cfg _

run_etcd_started :
    (w : World) (cfg : Settings.Config) → server_of (run_etcd w cfg) ≡ run_with_etcd w cfg
unfolding run_etcd run_with_etcd bring_up etcd_registry start_etcd
run_etcd_started w cfg = elim (Result-cases (created (new_etcd_registry (etcd_config cfg)))) [
  | inl (reg, made) ↦ rw made (etcd_started w cfg (Loops.start w.json w.wire w.net reg 0))
  | inr (e, refused) ↦ rw refused refl
]

-- `run` gives the server that the start through the interface gives, with the registry of the configured mode, or the
-- same error: the two registries, with a file or with etcd, meet the interface's laws, and nothing but the interface
-- is asked of them.
run-run_registry : (w : World) → server_of (run w) ≡ run_registry w
unfolding run run_registry
run-run_registry w = elim (Result-cases (loaded_config (Settings.load w.vars))) [
  | inr (e, bad) ↦ rw bad refl
  | inl (cfg, good) ↦ elim (Bool-cases (cfg.registry_mode == registry_mode_file)) [
    | inl file ↦ rw (good, file) (run_file_started w cfg)
    | inr other ↦ rw (good, other) (run_etcd_started w cfg)
  ]
]
