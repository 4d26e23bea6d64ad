-- ===== src/Startup/Sample.antt =====
-- A world with a file of one bucket, on which theorems about the start are tried.
use pg_shard_router.Base.{◌≡◌, none, some, [], ◌∷◌, ◌++◌, ◌==◌, refl, if◌then◌else◌}
use pg_shard_router.Base.Bytes.{codes, bytes_eq, bytes_beq}
use pg_shard_router.Base.Int.{pos}
use pg_shard_router.Base.Result.{ok}
use pg_shard_router.Cache.{Mapping}
use pg_shard_router.Base.Spaces.{trim_space}
use pg_shard_router.Config.{
  Config, Variables, load, get_env, get_int, get_duration, split_csv, to_int32, registry_mode_file,
}
use pg_shard_router.Model.{BucketDef}
use pg_shard_router.Registry.Http.{failed}
use pg_shard_router.Startup.{World}

abbrev pub bucket : BucketDef
bucket = record {
  bucket_id = pos 0;
  shard_id = codes "shard-01";
  dest_shard_id = [];
  state = [];
  mapping_version = pos 0;
}

abbrev pub vars : Variables
vars = record {
  getenv = λ v. if v == codes "REGISTRY_MODE" then codes "file" else [];
  parse_duration = λ v. none;
}

-- A world with a file of one bucket, and no network.
abbrev pub world : World
world = record {
  vars = vars;
  net = record { answer = λ n r. failed; auth_body = λ u p. u ++ p; token_of = λ s. none };
  wire = record {
    range_body = λ key range_end. key;
    range_response = λ raw. none;
    watch_body = λ key range_end rev. rev;
  };
  json = record { shard = λ v. none; bucket = λ v. none };
  read_file = λ path. some (codes "{}");
  decode_file = λ text. some (record { shards = []; buckets = (codes "0527", bucket) ∷ [] });
  visit = λ d. d;
}

abbrev pub settings : Config
settings = record {
  http_addr = codes ":8080";
  registry_mode = registry_mode_file;
  etcd_endpoints = codes "http://127.0.0.1:2379" ∷ [];
  etcd_dial_timeout = pos 5_000_000_000;
  etcd_reconcile_interval = pos 60_000_000_000;
  etcd_username = [];
  etcd_password = [];
  mapping_file = codes "testdata/mapping.example.json";
  bucket_count = pos 1024;
  pool_max_conns = pos 10;
}

pub loads_settings : load vars ≡ ok settings
unfolding load get_env get_int get_duration split_csv trim_space bytes_beq to_int32
loads_settings = refl

abbrev pub read : Mapping
read = record {
  revision = pos 1;
  shards = [];
  buckets = (pos 527, record bucket { bucket_id = pos 527 }) ∷ [];
}
