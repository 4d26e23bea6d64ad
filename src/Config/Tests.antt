-- ===== src/Config/Tests.antt =====
-- Settings from concrete environments.
use pg_shard_router.Base.{none, [], ◌∷◌, ◌≡◌, ◌==◌, refl, if◌then◌else◌}
use pg_shard_router.Base.Bytes.{Bytes, codes, bytes_eq, bytes_beq}
use pg_shard_router.Base.Int.{pos}
use pg_shard_router.Base.Result.{ok, err}
use pg_shard_router.Base.Spaces.{trim_space}
use pg_shard_router.Config.{
  Config, Variables, get_env, get_int, get_duration, split_csv, to_int32, load, no_etcd_endpoints,
  registry_mode_etcd,
}
use pg_shard_router.Config.Valid.{IsValid, load-IsValid}

-- Nothing is set but the endpoints.
abbrev with_endpoints : Bytes → Variables
with_endpoints list = record {
  getenv = λ v. if v == codes "ETCD_ENDPOINTS" then list else [];
  parse_duration = λ v. none;
}

-- Spaces around the parts and empty parts are dropped.
parts : split_csv (codes "http://a, http://b,,") ≡ codes "http://a" ∷ codes "http://b" ∷ []
unfolding split_csv trim_space bytes_beq
parts = refl

-- A list with no part is refused.
no_parts : load (with_endpoints (codes " , ")) ≡ err no_etcd_endpoints
unfolding load get_env get_int get_duration split_csv trim_space bytes_beq
no_parts = refl

-- A number of connections that an int32 does not hold loses its high bits.
wrapped : to_int32 (pos 4294967297) ≡ pos 1
unfolding to_int32
wrapped = refl

abbrev defaults : Config
defaults = record {
  http_addr = codes ":8080";
  registry_mode = registry_mode_etcd;
  etcd_endpoints = codes "http://a" ∷ [];
  etcd_dial_timeout = pos 5_000_000_000;
  etcd_reconcile_interval = pos 60_000_000_000;
  etcd_username = [];
  etcd_password = [];
  mapping_file = codes "testdata/mapping.example.json";
  bucket_count = pos 1024;
  pool_max_conns = pos 10;
}

loaded : load (with_endpoints (codes "http://a")) ≡ ok defaults
unfolding load get_env get_int get_duration split_csv trim_space bytes_beq to_int32
loaded = refl

load-IsValid_example : IsValid defaults
load-IsValid_example = load-IsValid (with_endpoints (codes "http://a")) defaults loaded
