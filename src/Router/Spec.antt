-- ===== src/Router/Spec.antt =====
-- What routing promises, apart from the code: the table of README.md ("Migration-state-aware
-- routing"), and the shards that a bucket's row of the table names.
use pg_shard_router.Base.{Option, none, some, List, [], ◌∷◌, ◌≡◌, ◌⊎◌, All}
use pg_shard_router.Base.Bytes.{bytes_eq}
use pg_shard_router.Base.Dict.{Dict, get}
use pg_shard_router.Cache.{Mapping}
use pg_shard_router.Base.Int.{ℤ}
use pg_shard_router.Router.{Resolved, RouteError, unknown_shard, shard_unavailable}
use pg_shard_router.Model.{
  ShardDef, BucketDef, MigrationState, shard_active, state_active_source, state_copying,
  state_dual_write, state_cdc_catchup, state_verifying, state_cutover, state_draining_src,
  state_active_dest,
}

pub data Phase : Type 0 where
  on_source on_both on_dest : Phase

-- The rows of the table.
abbrev pub phase_table : Dict MigrationState Phase
phase_table =
    (state_dual_write, on_both)
    ∷ (state_cdc_catchup, on_both)
    ∷ (state_verifying, on_both)
    ∷ (state_cutover, on_dest)
    ∷ (state_draining_src, on_dest)
    ∷ (state_active_dest, on_dest)
    ∷ (state_active_source, on_source)
    ∷ (state_copying, on_source)
    ∷ []

-- A bucket with no state, or with one that the table does not have, is not being moved.
abbrev pub or_on_source : Option Phase → Phase
or_on_source none = on_source
or_on_source (some p) = p

unfoldable pub phase : MigrationState → Phase
phase s = or_on_source (get s phase_table)

abbrev pub IsActive : ShardDef → Type 0
IsActive s = s.status ≡ shard_active

-- One row for a bucket with a known source: `read` serves the reads, and `writes` are to receive the
-- writes, the authoritative shard first.
pub data Row (m : Mapping) (b : BucketDef) (source read : ShardDef) (writes : List ShardDef)
    : Type 0 where
  at_source :
      phase b.state ≡ on_source → read ≡ source → writes ≡ source ∷ [] → Row m b source read writes
  at_both :
      (dest : ShardDef)
      → phase b.state ≡ on_both
      → get b.dest_shard_id m.shards ≡ some dest
      → read ≡ source
      → writes ≡ source ∷ dest ∷ []
      → Row m b source read writes
  dest_missing :
      phase b.state ≡ on_both
      → get b.dest_shard_id m.shards ≡ none
      → read ≡ source
      → writes ≡ source ∷ []
      → Row m b source read writes
  at_dest :
      phase b.state ≡ on_dest
      → get b.dest_shard_id m.shards ≡ some read
      → writes ≡ read ∷ []
      → Row m b source read writes

-- `res` answers for bucket `i`, assigned as `b`: the source is registered, the shards are a row of
-- the table, each of them is active, and the bucket and its state are passed on.
pub record Answers (m : Mapping) (i : ℤ) (b : BucketDef) (res : Resolved) : Type 0 where
  pub source : ShardDef
  pub source_known : get b.shard_id m.shards ≡ some source
  pub row : Row m b source res.read_shard res.write_shards
  pub reads_active : IsActive res.read_shard
  pub writes_active : All IsActive res.write_shards
  pub id : res.bucket_id ≡ i
  pub state : res.migration_state ≡ b.state

-- `s` is the first shard of the list that is not active.
abbrev pub FirstInactive : List ShardDef → ShardDef → Type 0
FirstInactive [] s = ⊥
FirstInactive (x ∷ xs) s = (¬ IsActive x) × (x ≡ s) ⊎ IsActive x × FirstInactive xs s

-- `e` is the error for bucket `i`, assigned as `b`.
pub data Refuses (m : Mapping) (i : ℤ) (b : BucketDef) (e : RouteError) : Type 0 where
  no_source : get b.shard_id m.shards ≡ none → e ≡ unknown_shard b.shard_id i → Refuses m i b e
  no_dest :
      (source : ShardDef)
      → get b.shard_id m.shards ≡ some source
      → phase b.state ≡ on_dest
      → get b.dest_shard_id m.shards ≡ none
      → e ≡ unknown_shard b.dest_shard_id i
      → Refuses m i b e
  inactive :
      (source read : ShardDef) (writes : List ShardDef) (s : ShardDef)
      → get b.shard_id m.shards ≡ some source
      → Row m b source read writes
      → FirstInactive writes s
      → e ≡ shard_unavailable s.shard_id
      → Refuses m i b e
