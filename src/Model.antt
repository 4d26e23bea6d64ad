-- ===== src/Model.antt =====
-- internal/model/types.go: the data types that mirror the key-space of etcd.
use pg_shard_router.Base.{Option, ◌++◌, ◌∷◌, if◌then◌else◌, ◌==◌}
use pg_shard_router.Base.Bytes.{Bytes, codes, decimal_int, bytes_eq}
use pg_shard_router.Base.Int.{ℤ}

-- Go's `type ShardStatus string`: any text, with four constants.
abbrev pub ShardStatus : Type 0
ShardStatus = Bytes

abbrev pub shard_active : ShardStatus
shard_active = codes "ACTIVE"

abbrev pub shard_maintenance : ShardStatus
shard_maintenance = codes "MAINTENANCE"

abbrev pub shard_draining : ShardStatus
shard_draining = codes "DRAINING"

abbrev pub shard_retired : ShardStatus
shard_retired = codes "RETIRED"

pub record Endpoint : Type 0 where
  pub host : Bytes
  pub port : ℤ
  pub database : Bytes

-- `Endpoint.String`: `%s:%d/%s`
unfoldable pub endpoint_string : Endpoint → Bytes
endpoint_string e = e.host ++ (b':' ∷ (decimal_int e.port ++ (b'/' ∷ e.database)))

pub record ShardDef : Type 0 where
  pub shard_id : Bytes
  pub status : ShardStatus
  pub writer : Endpoint
  pub reader : Option Endpoint
  pub credential_ref : Bytes
  pub region : Bytes

abbrev pub MigrationState : Type 0
MigrationState = Bytes

abbrev pub state_active_source : MigrationState
state_active_source = codes "ACTIVE_SOURCE"

abbrev pub state_copying : MigrationState
state_copying = codes "COPYING"

abbrev pub state_dual_write : MigrationState
state_dual_write = codes "DUAL_WRITE"

abbrev pub state_cdc_catchup : MigrationState
state_cdc_catchup = codes "CDC_CATCHUP"

abbrev pub state_verifying : MigrationState
state_verifying = codes "VERIFYING"

abbrev pub state_cutover : MigrationState
state_cutover = codes "CUTOVER"

abbrev pub state_draining_src : MigrationState
state_draining_src = codes "DRAINING_SOURCE"

abbrev pub state_active_dest : MigrationState
state_active_dest = codes "ACTIVE_DEST"

pub record BucketDef : Type 0 where
  pub bucket_id : ℤ
  pub shard_id : Bytes
  pub dest_shard_id : Bytes
  pub state : MigrationState
  pub mapping_version : ℤ

abbrev pub ReadConsistency : Type 0
ReadConsistency = Bytes

abbrev pub read_strong : ReadConsistency
read_strong = codes "STRONG"

abbrev pub read_your_writes : ReadConsistency
read_your_writes = codes "READ_YOUR_WRITES"

abbrev pub read_eventual : ReadConsistency
read_eventual = codes "EVENTUAL"

-- The `switch` of `ParseReadConsistency`.
unfoldable pub parse_read_consistency : Bytes → ReadConsistency
parse_read_consistency s =
    if s == read_your_writes
    then read_your_writes
    else if s == read_eventual
    then read_eventual
    else read_strong
