-- ===== src/Api/Health.antt =====
-- What the readiness probe tells.
use pg_shard_router.Api.{Server, healthy, not_ready, replied, handle_health}
use pg_shard_router.Base.{none, some, ◌≡◌, ◌↔◌, refl, arith, inl, inr}
use pg_shard_router.Base.Bytes.{codes}
use pg_shard_router.Base.Dict.{get}
use pg_shard_router.Base.Int.{pos, int_eq}
use pg_shard_router.Base.Result.{Result-cases}
use pg_shard_router.Cache.{Mapping, load}
use pg_shard_router.Hashing.{ShardKey, text, bucket_for}
use pg_shard_router.Model.{BucketDef}
use pg_shard_router.Router.{Resolved, resolve, no_mapping}
use pg_shard_router.Router.Errors.{resolve-Unassigned}
use pg_shard_router.Router.Refines.{resolve-eq-ok}
use pg_shard_router.Router.Spec.{Answers}

abbrev pub probe : ShardKey
probe = text (codes "healthcheck-probe-key")

-- The probe fails until the first map is loaded. From then on, where the bucket of the probe's key is
-- assigned, it succeeds exactly where the migration table has an answer for that bucket whose shards
-- are all active: one bucket's shards decide for the whole service.
pub handle_health-Answers :
    (s : Server)
    → (load s.router.store ≡ none → handle_health s ≡ replied 503 (not_ready no_mapping))
      × ((m : Mapping) (b : BucketDef)
          → load s.router.store ≡ some m
          → get (bucket_for probe s.router.bucket_count) m.buckets ≡ some b
          → (handle_health s ≡ replied 200 healthy)
            ↔ ((res : Resolved) × Answers m (bucket_for probe s.router.bucket_count) b res))
unfolding handle_health
handle_health-Answers s = (
  λ unloaded. rw ((resolve-Unassigned probe s.router (pos 0)).0.1 unloaded, handle_health) refl,
  λ m b loaded assigned. (
    λ h. elim (Result-cases (resolve probe s.router)) [
      | inl (res, e) ↦ (res, (resolve-eq-ok probe s.router loaded assigned res).0 e)
      | inr (e, failed) ↦ absurd (ground (arith, h, failed))
    ],
    λ a. rw ((resolve-eq-ok probe s.router loaded assigned a.0).1 a.1, handle_health) refl,
  ),
)
