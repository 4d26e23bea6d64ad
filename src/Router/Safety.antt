-- ===== src/Router/Safety.antt =====
-- What callers of `resolve` rely on.
use pg_shard_router.Base.{none, some, [], ◌∷◌, ◌≡◌, ◌≢◌, ◌⊎◌, inl, inr, refl, Option-cases}
use pg_shard_router.Base.Bytes.{bytes_eq}
use pg_shard_router.Base.Dict.{get}
use pg_shard_router.Base.Int.{int_eq}
use pg_shard_router.Base.Result.{ok, err}
use pg_shard_router.Cache.{Mapping, load}
use pg_shard_router.Hashing.{ShardKey, bucket_for}
use pg_shard_router.Model.{ShardDef, BucketDef}
use pg_shard_router.Router.{Resolved, Router, resolve, primary_write_shard, shard_unavailable}
use pg_shard_router.Router.Refines.{resolve-eq-ok}
use pg_shard_router.Router.Errors.{resolve-eq-err}
use pg_shard_router.Router.Spec.{
  Phase, on_source, on_both, on_dest, phase, Row, at_source, at_both, dest_missing, at_dest,
  IsActive, Answers, inactive,
}

Row-primary :
    {m : Mapping} {b : BucketDef} {source : ShardDef} (res : Resolved)
    → Row m b source res.read_shard res.write_shards
    → primary_write_shard res ≡ some res.read_shard
unfolding primary_write_shard
Row-primary res (at_source p r w) = rw (w, r)
Row-primary res (at_both dest p known r w) = rw (w, r)
Row-primary res (dest_missing p known r w) = rw (w, r)
Row-primary res (at_dest p known w) = rw w

module _ (key : ShardKey) (r : Router) {m : Mapping} {b : BucketDef}
    (loaded : load r.store ≡ some m)
    (assigned : get (bucket_for key r.bucket_count) m.buckets ≡ some b) (res : Resolved)
    (answered : resolve key r ≡ ok res) where
  answer : Answers m (bucket_for key r.bucket_count) b res
  answer = (resolve-eq-ok key r loaded assigned res).0 answered

  -- In every answer the authoritative shard of the writes exists and is the shard that serves the
  -- reads: taking the first of the write shards cannot panic, and a read that goes to the primary
  -- sees the writes.
  pub primary_write_shard-resolve : primary_write_shard res ≡ some res.read_shard
  primary_write_shard-resolve = Row-primary res answer.row

  -- Once the state is CUTOVER or later, an answer reads from the registered destination and writes
  -- to it alone: no request goes back to the source.
  resolve_after_cutover :
      phase b.state ≡ on_dest
      → (get b.dest_shard_id m.shards ≡ some res.read_shard)
        × (res.write_shards ≡ res.read_shard ∷ [])
  resolve_after_cutover moved = by_row answer.row
    where
      by_row :
          Row m b answer.source res.read_shard res.write_shards
          → (get b.dest_shard_id m.shards ≡ some res.read_shard)
            × (res.write_shards ≡ res.read_shard ∷ [])
      by_row (at_source p _ w) = cc
      by_row (at_both dest p known _ w) = cc
      by_row (dest_missing p known _ w) = cc
      by_row (at_dest p known w) = (known, w)

Phase-cases : (p : Phase) → (p ≡ on_source) ⊎ (p ≡ on_both) ⊎ (p ≡ on_dest)
Phase-cases on_source = inl refl
Phase-cases on_both = inr (inl refl)
Phase-cases on_dest = inr (inr refl)

-- While the table writes to the source of a bucket, in whatever state, a source that is not active fails every request for
-- the bucket, with the error of an outage of the source.
pub resolve_inactive_source :
    (key : ShardKey) (r : Router) (m : Mapping) (b : BucketDef) (source : ShardDef)
    → load r.store ≡ some m
    → get (bucket_for key r.bucket_count) m.buckets ≡ some b
    → get b.shard_id m.shards ≡ some source
    → phase b.state ≢ on_dest
    → ¬ IsActive source
    → resolve key r ≡ err (shard_unavailable source.shard_id)
resolve_inactive_source key r m b source loaded assigned known writes passive =
    (resolve-eq-err key r loaded assigned _).1 (elim (Phase-cases (phase b.state)) [
      | inl alone ↦
          inactive source source (source ∷ []) source known (at_source alone refl refl)
            (inl (passive, refl)) refl
      | inr (inr dest) ↦ absurd (writes dest)
      | inr (inl both) ↦ elim (Option-cases (get b.dest_shard_id m.shards)) [
        | inl missing ↦
            inactive source source (source ∷ []) source known (dest_missing both missing refl refl)
              (inl (passive, refl)) refl
        | inr (dest, there) ↦
            inactive source source (source ∷ dest ∷ []) source known
              (at_both dest both there refl refl) (inl (passive, refl)) refl
      ]
    ])

-- During a dual write the destination decides whether the source serves. With an active source, a destination that is
-- registered and not active fails every request for the bucket, reads too, as unavailable; one that is not registered fails none.
pub resolve_inactive_dest :
    (key : ShardKey) (r : Router) (m : Mapping) (b : BucketDef) (source : ShardDef)
    → load r.store ≡ some m
    → get (bucket_for key r.bucket_count) m.buckets ≡ some b
    → get b.shard_id m.shards ≡ some source
    → phase b.state ≡ on_both
    → IsActive source
    → ((dest : ShardDef)
        → get b.dest_shard_id m.shards ≡ some dest
        → ¬ IsActive dest
        → resolve key r ≡ err (shard_unavailable dest.shard_id))
      × (get b.dest_shard_id m.shards ≡ none
          → resolve key r
            ≡ ok (record {
              bucket_id = bucket_for key r.bucket_count;
              read_shard = source;
              write_shards = source ∷ [];
              migration_state = b.state;
            }))
resolve_inactive_dest key r m b source loaded assigned known both active = (
  λ dest there passive. (resolve-eq-err key r loaded assigned _).1 (
      inactive source source (source ∷ dest ∷ []) dest known (at_both dest both there refl refl)
        (inr (active, inl (passive, refl))) refl),
  λ missing. (resolve-eq-ok key r loaded assigned _).1 (record {
    source = source;
    source_known = known;
    row = dest_missing both missing refl refl;
    reads_active = active;
    writes_active = (active, tt);
    id = refl;
    state = refl;
  }),
)
