-- ===== src/Config.antt =====
-- internal/config/config.go: the settings from environment variables. `time.ParseDuration` is an
-- argument, since it computes with floating-point numbers; a duration is in nanoseconds.
pub mod Valid
mod Tests
use pg_shard_router.Base.{
  ℕ, ◌-◌, ◌%◌, ◌^◌, ◌*◌, Bool, true, false, Option, none, some, List, [], ◌∷◌, ◌==◌, ◌&&◌, ◌||◌,
  not, ltb, nat_beq, if◌then◌else◌,
}
use pg_shard_router.Base.Bytes.{Bytes, codes, bytes_eq}
use pg_shard_router.Base.Int.{ℤ, pos, negsuc}
use pg_shard_router.Base.Result.{Result, ok, err}
use pg_shard_router.Base.Spaces.{trim_space}
use pg_shard_router.Base.Strconv.{atoi}

abbrev pub RegistryMode : Type 0
RegistryMode = Bytes

abbrev pub registry_mode_etcd : RegistryMode
registry_mode_etcd = codes "etcd"

abbrev pub registry_mode_file : RegistryMode
registry_mode_file = codes "file"

pub record Config : Type 0 where
  pub http_addr : Bytes
  pub registry_mode : RegistryMode
  pub etcd_endpoints : List Bytes
  pub etcd_dial_timeout : ℤ
  pub etcd_reconcile_interval : ℤ
  pub etcd_username : Bytes
  pub etcd_password : Bytes
  pub mapping_file : Bytes
  pub bucket_count : ℤ
  pub pool_max_conns : ℤ

pub data ConfigError : Type 0 where
  invalid_mode : RegistryMode → ConfigError
  no_etcd_endpoints : ConfigError

-- `os.Getenv` and `time.ParseDuration`.
pub record Variables : Type 0 where
  pub getenv : Bytes → Bytes
  pub parse_duration : Bytes → Option ℤ

unfoldable pub get_env : Variables → Bytes → Bytes → Bytes
get_env vars key def = if vars.getenv key == [] then def else vars.getenv key

or_def : Option ℤ → ℤ → ℤ
or_def none def = def
or_def (some n) def = n

unfoldable pub get_int : Variables → Bytes → ℤ → ℤ
unfolding or_def
get_int vars key def = let v = vars.getenv key in if v == [] then def else or_def (atoi v) def

unfoldable pub get_duration : Variables → Bytes → ℤ → ℤ
unfolding or_def
get_duration vars key def =
    let v = vars.getenv key in if v == [] then def else or_def (vars.parse_duration v) def

-- `strings.Split(v, ",")`: the first part, and the others.
unfoldable pub split_comma : Bytes → Bytes × List Bytes
split_comma [] = ([], [])
split_comma (c ∷ s) =
    let (part, parts) = split_comma s in
    if nat_beq c b',' then ([], part ∷ parts) else (c ∷ part, parts)

-- The loop over the parts.
unfoldable pub keep_parts : List Bytes → List Bytes
keep_parts [] = []
keep_parts (p ∷ ps) =
    let rest = keep_parts ps in if trim_space p == [] then rest else trim_space p ∷ rest

unfoldable pub split_csv : Bytes → List Bytes
unfolding split_comma keep_parts
split_csv v = if v == [] then [] else let (part, parts) = split_comma v in keep_parts (part ∷ parts)

-- The conversion to `int32`, which drops the high bits.
unfoldable pub to_int32 : ℤ → ℤ
to_int32 (pos n) = let r = n % 2 ^ 32 in if ltb r (2 ^ 31) then pos r else negsuc (2 ^ 32 - 1 - r)
to_int32 (negsuc n) =
    let r = n % 2 ^ 32 in if ltb r (2 ^ 31) then negsuc r else pos (2 ^ 32 - 1 - r)

abbrev seconds : ℕ → ℤ
seconds n = pos (n * 1_000_000_000)

-- What is read before the tests.
read_config : Variables → Config
unfolding get_env get_int get_duration split_csv to_int32
read_config vars = record {
  http_addr = get_env vars (codes "HTTP_ADDR") (codes ":8080");
  registry_mode = get_env vars (codes "REGISTRY_MODE") registry_mode_etcd;
  etcd_endpoints =
      split_csv (get_env vars (codes "ETCD_ENDPOINTS") (codes "http://127.0.0.1:2379"));
  etcd_dial_timeout = get_duration vars (codes "ETCD_DIAL_TIMEOUT") (seconds 5);
  etcd_reconcile_interval = get_duration vars (codes "ETCD_RECONCILE_INTERVAL") (seconds 60);
  etcd_username = vars.getenv (codes "ETCD_USERNAME");
  etcd_password = vars.getenv (codes "ETCD_PASSWORD");
  mapping_file = get_env vars (codes "MAPPING_FILE") (codes "testdata/mapping.example.json");
  bucket_count = get_int vars (codes "BUCKET_COUNT") (pos 1024);
  pool_max_conns = to_int32 (get_int vars (codes "POOL_MAX_CONNS") (pos 10));
}

is_empty : List Bytes → Bool
is_empty [] = true
is_empty (x ∷ xs) = false

check_config : Config → Result ConfigError Config
unfolding is_empty
check_config c =
    if not (c.registry_mode == registry_mode_etcd) && not (c.registry_mode == registry_mode_file)
    then err (invalid_mode c.registry_mode)
    else if c.registry_mode == registry_mode_etcd && is_empty c.etcd_endpoints
    then err no_etcd_endpoints
    else ok c

-- `Load`
unfoldable pub load : Variables → Result ConfigError Config
unfolding read_config check_config
load vars = check_config (read_config vars)
