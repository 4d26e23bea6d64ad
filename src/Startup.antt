-- ===== src/Startup.antt =====
-- cmd/shard-router/main.go: how `run` puts the parts together, up to the point at which the server
-- listens. Shutdown has what follows.
pub mod Current
pub mod Registries
pub mod Serves
pub mod Shutdown
pub mod Main
pub mod Sample
mod Tests
use pg_shard_router.Api.{Server}
use pg_shard_router.Base.{ℕ, Option, none, some, List, [], ◌==◌, if◌then◌else◌}
use pg_shard_router.Base.Bytes.{Bytes, bytes_eq}
use pg_shard_router.Base.Dict.{Dict}
use pg_shard_router.Base.Int.{ℤ}
use pg_shard_router.Base.Result.{Result, ok, err, ◌>>=◌}
use pg_shard_router.Breaker
use pg_shard_router.Cache.{Store, new_store}
use pg_shard_router.Config as Settings
use pg_shard_router.Config.{Variables, ConfigError, registry_mode_file}
use pg_shard_router.Metrics
use pg_shard_router.Model.{BucketDef}
use pg_shard_router.Pool
use pg_shard_router.Pool.{new_manager, default_config}
use pg_shard_router.Registry.Apply.{Json}
use pg_shard_router.Registry.File as File
use pg_shard_router.Registry.File.{FileDoc, FileError}
use pg_shard_router.Registry.Gateway.{Wire}
use pg_shard_router.Registry.Http.{Network}
use pg_shard_router.Registry.Loops as Loops
use pg_shard_router.Registry.Loops.{EtcdConfig, EtcdRegistry, StartError, new_etcd_registry}
use pg_shard_router.Router as Router

-- What lies outside: the environment, the network, the file system, and the encoders and decoders.
pub record World : Type 0 where
  pub vars : Variables
  pub net : Network
  pub wire : Wire
  pub json : Json
  pub read_file : Bytes → Option Bytes
  pub decode_file : Bytes → Option FileDoc
  pub visit : Dict Bytes BucketDef → Dict Bytes BucketDef

pub data StartupError : Type 0 where
  bad_config : ConfigError → StartupError
  etcd_failed : StartError → StartupError
  file_failed : FileError → StartupError

-- What `run` has when it begins to listen: the etcd registry, if it has one, with the number of its
-- requests and the revision that it was loaded at.
pub record Running : Type 0 where
  pub server : Server
  pub pool_config : Pool.Config
  pub addr : Bytes
  pub etcd : Option (EtcdRegistry × ℕ × ℤ)

etcd_config : Settings.Config → EtcdConfig
etcd_config cfg = record {
  endpoints = cfg.etcd_endpoints;
  dial_timeout = cfg.etcd_dial_timeout;
  username = cfg.etcd_username;
  password = cfg.etcd_password;
  reconcile_interval = cfg.etcd_reconcile_interval;
}

-- The parts that come after the registry was started.
pub serve : Settings.Config → Store → Option (EtcdRegistry × ℕ × ℤ) → Running
serve cfg store etcd = record {
  server = record {
    router = Router.new store cfg.bucket_count;
    breakers = Breaker.new_registry;
    pool = new_manager;
    metrics = Metrics.new_registry;
  };
  pool_config = record default_config { max_conns = cfg.pool_max_conns };
  addr = cfg.http_addr;
  etcd = etcd;
}

file_store : Store × Result FileError (Unit {0}) → Result StartupError Store
file_store (store, err e) = err (file_failed e)
file_store (store, ok _) = ok store

etcd_store : (EtcdRegistry × ℕ) × Result StartError ℤ → Result StartupError (EtcdRegistry × ℕ × ℤ)
etcd_store ((reg, n), err e) = err (etcd_failed e)
etcd_store ((reg, n), ok rev) = ok (reg, n, rev)

created : Result StartError EtcdRegistry → Result StartupError EtcdRegistry
created (err e) = err (etcd_failed e)
created (ok reg) = ok reg

run_file : World → Settings.Config → Result StartupError Running
unfolding file_store serve
run_file w cfg = do
  store ← file_store (File.start w.decode_file w.visit (w.read_file cfg.mapping_file) new_store)
  ok (serve cfg store none)

run_etcd : World → Settings.Config → Result StartupError Running
unfolding etcd_store created etcd_config serve
run_etcd w cfg = do
  reg ← created (new_etcd_registry (etcd_config cfg))
  started ← etcd_store (Loops.start w.json w.wire w.net reg 0)
  ok (serve cfg started.0.store (some started))

loaded_config : Result ConfigError Settings.Config → Result StartupError Settings.Config
loaded_config (err e) = err (bad_config e)
loaded_config (ok cfg) = ok cfg

unfoldable pub run : World → Result StartupError Running
unfolding run_file run_etcd loaded_config
run w = do
  cfg ← loaded_config (Settings.load w.vars)
  if cfg.registry_mode == registry_mode_file then run_file w cfg else run_etcd w cfg
