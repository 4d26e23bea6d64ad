-- ===== src/Router/Tests.antt =====
-- The theorems on routing at concrete inputs, and the cases of router_test.go.
use pg_shard_router.Base.{some, [], ◌∷◌, ◌++◌, ◌≡◌, ◌≢◌, ◌⊎◌, inl, inr, refl, String}
use pg_shard_router.Base.Bytes.{Bytes, codes, bytes_eq, bytes_beq}
use pg_shard_router.Base.Dict.{get}
use pg_shard_router.Base.Int.{pos, int_eq}
use pg_shard_router.Base.Result.{ok, err}
use pg_shard_router.Cache.{Mapping, load}
use pg_shard_router.Hashing.{ShardKey, text, bucket_for}
use pg_shard_router.Hashing.Sha256.{sum256}
use pg_shard_router.Model.{
  Endpoint, ShardDef, ShardStatus, BucketDef, MigrationState, shard_active, shard_draining,
  state_copying, state_dual_write, state_verifying, state_cutover,
}
use pg_shard_router.Router.{Resolved, Router, resolve, shard_unavailable}
use pg_shard_router.Router.Spec.{Answers, Refuses, on_source, on_dest, on_both, phase}
use pg_shard_router.Router.Refines.{resolve-eq-ok}
use pg_shard_router.Router.Handover.{Reaches, resolve-Reaches}
use pg_shard_router.Router.Errors.{resolve-eq-err}
use pg_shard_router.Router.Safety.{resolve_inactive_source, resolve_inactive_dest}

abbrev endpoint : Bytes → Endpoint
endpoint h = record { host = h; port = pos 6432; database = codes "payment" }

abbrev shard : String → ShardStatus → ShardDef
shard id status = record {
  shard_id = codes id;
  status = status;
  writer = endpoint (codes id ++ codes "-rw");
  reader = some (endpoint (codes id ++ codes "-ro"));
  credential_ref = codes "secret/payment/postgresql";
  region = codes "jakarta";
}

abbrev bucket : MigrationState → BucketDef
bucket state = record {
  bucket_id = pos 0;
  shard_id = codes "shard-01";
  dest_shard_id = codes "shard-05";
  state = state;
  mapping_version = pos 0;
}

abbrev mapping : ShardStatus → ShardStatus → MigrationState → Mapping
mapping from to state = record {
  revision = pos 1;
  shards = (codes "shard-01", shard "shard-01" from) ∷ (codes "shard-05", shard "shard-05" to) ∷ [];
  buckets = (pos 0, bucket state) ∷ [];
}

-- One bucket, so that every key goes to it.
abbrev router : ShardStatus → ShardStatus → MigrationState → Router
router from to state = record {
  store = record { ptr = some (mapping from to state) };
  bucket_count = pos 1;
}

abbrev key : ShardKey
key = text (codes "tenant-1")

abbrev moved : Resolved
moved = record {
  bucket_id = pos 0;
  read_shard = shard "shard-05" shard_active;
  write_shards = shard "shard-05" shard_active ∷ [];
  migration_state = state_cutover;
}

resolve_cutover : resolve key (router shard_active shard_active state_cutover) ≡ ok moved
unfolding resolve bucket_for sum256 get bytes_beq
resolve_cutover = refl

loaded :
    (from to : ShardStatus) (state : MigrationState)
    → load (router from to state).store ≡ some (mapping from to state)
unfolding load
loaded from to state = refl

assigned :
    (from to : ShardStatus) (state : MigrationState)
    → get (bucket_for key (pos 1)) (mapping from to state).buckets ≡ some (bucket state)
unfolding get bucket_for sum256
assigned from to state = refl

-- TestResolve_MigrationStates, for three of its states.
resolve-eq-ok_example :
    Answers
      (mapping shard_active shard_active state_cutover)
      (bucket_for key (pos 1))
      (bucket state_cutover)
      moved
resolve-eq-ok_example =
    (resolve-eq-ok key (router shard_active shard_active state_cutover)
        (loaded shard_active shard_active state_cutover)
        (assigned shard_active shard_active state_cutover) moved).0
      resolve_cutover

resolve_draining :
    resolve key (router shard_draining shard_active state_dual_write)
    ≡ err (shard_unavailable (codes "shard-01"))
unfolding resolve bucket_for sum256 get bytes_beq
resolve_draining = refl

resolve-eq-err_example :
    Refuses
      (mapping shard_draining shard_active state_dual_write)
      (bucket_for key (pos 1))
      (bucket state_dual_write)
      (shard_unavailable (codes "shard-01"))
resolve-eq-err_example =
    (resolve-eq-err key (router shard_draining shard_active state_dual_write)
        (loaded shard_draining shard_active state_dual_write)
        (assigned shard_draining shard_active state_dual_write)
        (shard_unavailable (codes "shard-01"))).0
      resolve_draining

dual_phase : phase state_dual_write ≡ on_both
unfolding phase get bytes_beq
dual_phase = refl

get_source :
    (from to : ShardStatus) (state : MigrationState)
    → get (codes "shard-01") (mapping from to state).shards ≡ some (shard "shard-01" from)
unfolding get bytes_beq
get_source from to state = refl

copying_phase : phase state_copying ≡ on_source
unfolding phase get bytes_beq
copying_phase = refl

resolve_inactive_source_example :
    resolve key (router shard_draining shard_active state_copying)
    ≡ err (shard_unavailable (codes "shard-01"))
resolve_inactive_source_example =
    resolve_inactive_source key (router shard_draining shard_active state_copying)
      (mapping shard_draining shard_active state_copying) (bucket state_copying)
      (shard "shard-01" shard_draining) (loaded shard_draining shard_active state_copying)
      (assigned shard_draining shard_active state_copying)
      (get_source shard_draining shard_active state_copying) (λ e. cc (e, copying_phase)) (λ e. cc)

get_dest :
    (from to : ShardStatus) (state : MigrationState)
    → get (codes "shard-05") (mapping from to state).shards ≡ some (shard "shard-05" to)
unfolding get bytes_beq
get_dest from to state = refl

resolve_inactive_dest_example :
    resolve key (router shard_active shard_draining state_dual_write)
    ≡ err (shard_unavailable (codes "shard-05"))
resolve_inactive_dest_example =
    (resolve_inactive_dest key (router shard_active shard_draining state_dual_write)
        (mapping shard_active shard_draining state_dual_write) (bucket state_dual_write)
        (shard "shard-01" shard_active) (loaded shard_active shard_draining state_dual_write)
        (assigned shard_active shard_draining state_dual_write)
        (get_source shard_active shard_draining state_dual_write) dual_phase refl).0
      (shard "shard-05" shard_draining) (get_dest shard_active shard_draining state_dual_write)
      (λ e. cc)

abbrev both : Resolved
both = record {
  bucket_id = pos 0;
  read_shard = shard "shard-01" shard_active;
  write_shards = shard "shard-01" shard_active ∷ shard "shard-05" shard_active ∷ [];
  migration_state = state_verifying;
}

resolve_verifying : resolve key (router shard_active shard_active state_verifying) ≡ ok both
unfolding resolve bucket_for sum256 get bytes_beq
resolve_verifying = refl

resolve-Reaches_example :
    Reaches moved both
    × ((phase state_verifying ≡ phase state_cutover) ⊎ (phase state_cutover ≢ on_dest)
        → Reaches both moved)
resolve-Reaches_example =
    resolve-Reaches key (router shard_active shard_active state_verifying)
      (router shard_active shard_active state_cutover)
      (mapping shard_active shard_active state_verifying)
      (mapping shard_active shard_active state_cutover) (bucket state_verifying)
      (bucket state_cutover) (shard "shard-01" shard_active) (shard "shard-05" shard_active) both
      moved (loaded shard_active shard_active state_verifying)
      (loaded shard_active shard_active state_cutover)
      (assigned shard_active shard_active state_verifying)
      (assigned shard_active shard_active state_cutover) (inr (inr (inr (inr (inl (refl, refl))))))
      (
        get_source shard_active shard_active state_verifying,
        get_source shard_active shard_active state_cutover,
      )
      (
        get_dest shard_active shard_active state_verifying,
        get_dest shard_active shard_active state_cutover,
      )
      resolve_verifying resolve_cutover
