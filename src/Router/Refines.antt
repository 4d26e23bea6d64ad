-- ===== src/Router/Refines.antt =====
-- `resolve` implements the table, on every branch.
use pg_shard_router.Base.{
  some, inl, inr, List, [], ◌∷◌, ◌≡◌, ◌↔◌, subst, ◌∙◌, sym, if◌then◌else◌, All, arith, Bool-cases,
  Option-cases,
}
use pg_shard_router.Base.Bytes.{bytes_eq, bytes_beq_symm, bytes_beq_iff}
use pg_shard_router.Base.Dict.{get}
use pg_shard_router.Base.Int.{ℤ, int_eq}
use pg_shard_router.Base.Result.{Result, ok, ◌>>=◌, >>=-eq-ok, or_fail}
use pg_shard_router.Cache.{Mapping, load}
use pg_shard_router.Hashing.{ShardKey, bucket_for}
use pg_shard_router.Model.{
  ShardDef, BucketDef, MigrationState, shard_active, state_dual_write, state_cdc_catchup,
  state_verifying, state_cutover, state_draining_src, state_active_dest,
}
use pg_shard_router.Router.{
  RouteError, Resolved, Router, is_dual, is_moved, migrate, refuse_inactive, resolve, unknown_shard,
}
use pg_shard_router.Router.Spec.{
  on_source, on_both, on_dest, phase, Row, at_source, at_both, dest_missing, at_dest, Answers,
  IsActive,
}

-- The two cases of the switch, in their order, are the table.
pub phase_by_tests :
    (s : MigrationState)
    → phase s ≡ (if is_dual s then on_both else if is_moved s then on_dest else on_source)
unfolding phase is_dual is_moved get
phase_by_tests s =
    simp
      (
        bytes_beq_symm state_dual_write s,
        bytes_beq_symm state_cdc_catchup s,
        bytes_beq_symm state_verifying s,
        bytes_beq_symm state_cutover s,
        bytes_beq_symm state_draining_src s,
        bytes_beq_symm state_active_dest s,
      )
      (ground arith)

module _ (m : Mapping) (b : BucketDef) (i : ℤ) (source : ShardDef) where
  abbrev pub start : Resolved
  start = record {
    bucket_id = i;
    read_shard = source;
    write_shards = source ∷ [];
    migration_state = b.state;
  }

  -- A bucket's row fits the answer.
  pub record Fits (res : Resolved) : Type 0 where
    pub row : Row m b source res.read_shard res.write_shards
    pub id : res.bucket_id ≡ i
    pub state : res.migration_state ≡ b.state

  pub migrate-Fits : (res : Resolved) → migrate m b start ≡ ok res → Fits res
  unfolding migrate
  migrate-Fits res h = elim (Option-cases (get b.dest_shard_id m.shards)) [
    | inl missing ↦ elim (Bool-cases (is_dual b.state)) [
      | inl dual ↦ record {
        row = dest_missing (rw (phase_by_tests, dual)) missing (ground arith) (ground arith);
        id = ground arith;
        state = ground arith;
      }
      | inr single ↦ elim (Bool-cases (is_moved b.state)) [
        | inl moved ↦ absurd (ground arith)
        | inr unmoved ↦ record {
          row = at_source (rw (phase_by_tests, single, unmoved)) (ground arith) (ground arith);
          id = ground arith;
          state = ground arith;
        }
      ]
    ]
    | inr (dest, known) ↦ elim (Bool-cases (is_dual b.state)) [
      | inl dual ↦ record {
        row = at_both dest (rw (phase_by_tests, dual)) known (ground arith) (ground arith);
        id = ground arith;
        state = ground arith;
      }
      | inr single ↦ elim (Bool-cases (is_moved b.state)) [
        | inl moved ↦ record {
          row = at_dest (rw (phase_by_tests, single, moved)) (ground arith) (ground arith);
          id = ground arith;
          state = ground arith;
        }
        | inr unmoved ↦ record {
          row = at_source (rw (phase_by_tests, single, unmoved)) (ground arith) (ground arith);
          id = ground arith;
          state = ground arith;
        }
      ]
    ]
  ]

refuse_inactive-eq-ok :
    (writes : List ShardDef) (r res : Resolved)
    → refuse_inactive writes r ≡ ok res
    → (res ≡ r) × IsActive r.read_shard × All IsActive writes
unfolding refuse_inactive
refuse_inactive-eq-ok [] r res h = ground (arith, bytes_beq_iff r.read_shard.status shard_active)
refuse_inactive-eq-ok (w ∷ ws) r res h =
    ground (arith, bytes_beq_iff w.status shard_active, refuse_inactive-eq-ok ws r res)

-- What is left of `resolve` once the bucket is found.
unfoldable pub route : Mapping → ℤ → BucketDef → Result RouteError Resolved
route m i b = do
  source ← or_fail (get b.shard_id m.shards) (unknown_shard b.shard_id i)
  res ← migrate m b (start m b i source)
  refuse_inactive res.write_shards res

pub refuse_inactive-active :
    (writes : List ShardDef) (r : Resolved)
    → IsActive r.read_shard
    → All IsActive writes
    → refuse_inactive writes r ≡ ok r
unfolding refuse_inactive
refuse_inactive-active [] r a h = ground (arith, bytes_beq_iff r.read_shard.status shard_active)
refuse_inactive-active (w ∷ ws) r a h =
    ground (arith, bytes_beq_iff w.status shard_active, refuse_inactive-active ws r a h.1)

unfoldable pub checked : Resolved → Result RouteError Resolved
checked res = refuse_inactive res.write_shards res

module _ (m : Mapping) (i : ℤ) (b : BucketDef) where
  pub route-known :
      (source : ShardDef)
      → get b.shard_id m.shards ≡ some source
      → route m i b ≡ (migrate m b (start m b i source) >>= checked)
  unfolding route checked
  route-known source known = rw known

  Answers-of_parts :
      (source : ShardDef) (res : Resolved)
      → get b.shard_id m.shards ≡ some source
      → Fits m b i source res
      → checked res ≡ ok res
      → Answers m i b res
  unfolding checked
  Answers-of_parts source res known fits active =
      let (_, reads, writes) = refuse_inactive-eq-ok res.write_shards res res active in
      record {
        source = source;
        source_known = known;
        row = fits.row;
        reads_active = reads;
        writes_active = writes;
        id = fits.id;
        state = fits.state;
      }

  route_sound : (res : Resolved) → route m i b ≡ ok res → Answers m i b res
  route_sound res h = elim (Option-cases (get b.shard_id m.shards)) [
    | inl missing ↦ absurd (unfold route in ground arith)
    | inr (source, known) ↦
        let (mid, made, passed) =
          >>=-eq-ok (migrate m b (start m b i source)) checked
            (sym (route-known source known) ∙ h) in
        let same : res ≡ mid =
          (refuse_inactive-eq-ok mid.write_shards mid res (unfold checked in passed)).0 in
        Answers-of_parts source res known (migrate-Fits m b i source res (rw same made))
          (subst (λ r. checked r ≡ ok res) (sym same) passed)
  ]

  pub migrate-of_Row :
      (source : ShardDef) (res : Resolved)
      → Row m b source res.read_shard res.write_shards
      → res.bucket_id ≡ i
      → res.migration_state ≡ b.state
      → migrate m b (start m b i source) ≡ ok res
  unfolding migrate
  migrate-of_Row source res (at_source p r w) id state = ground (arith, phase_by_tests b.state)
  migrate-of_Row source res (at_both dest p known r w) id state =
      ground (arith, phase_by_tests b.state)
  migrate-of_Row source res (dest_missing p known r w) id state =
      ground (arith, phase_by_tests b.state)
  migrate-of_Row source res (at_dest p known w) id state = ground (arith, phase_by_tests b.state)

  route_complete : (res : Resolved) → Answers m i b res → route m i b ≡ ok res
  unfolding checked
  route_complete res a =
      route-known a.source a.source_known
      ∙ (rw (migrate-of_Row a.source res a.row a.id a.state)
          (refuse_inactive-active res.write_shards res a.reads_active a.writes_active))

module _ (key : ShardKey) (r : Router) {m : Mapping} {b : BucketDef}
    (loaded : load r.store ≡ some m)
    (assigned : get (bucket_for key r.bucket_count) m.buckets ≡ some b) where
  pub resolve-route : resolve key r ≡ route m (bucket_for key r.bucket_count) b
  unfolding resolve route
  resolve-route = rw (loaded, assigned)

  -- With a map loaded and the key's bucket assigned, `resolve` succeeds with exactly the answers
  -- that the table allows: the reads and writes are a row for the bucket's state, its source is
  -- registered, every shard of the row is active, and the bucket and its state are passed on.
  pub resolve-eq-ok :
      (res : Resolved) → (resolve key r ≡ ok res) ↔ Answers m (bucket_for key r.bucket_count) b res
  resolve-eq-ok res = (
    λ h. route_sound m _ b res (sym resolve-route ∙ h),
    λ a. resolve-route ∙ route_complete m _ b res a,
  )
