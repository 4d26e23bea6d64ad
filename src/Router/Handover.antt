-- ===== src/Router/Handover.antt =====
-- A migration that goes one state forward, seen by two replicas of the service of which one already has the new
-- map: the order of the states is that of internal/model/types.go.
use pg_shard_router.Base.{some, List, [], ◌∷◌, ◌≡◌, ◌≢◌, ◌⊎◌, refl, subst, ◌∙◌, inl, inr}
use pg_shard_router.Base.Bytes.{bytes_eq, bytes_beq}
use pg_shard_router.Base.Dict.{get}
use pg_shard_router.Base.Int.{int_eq}
use pg_shard_router.Base.Result.{ok}
use pg_shard_router.Cache.{Mapping, load}
use pg_shard_router.Hashing.{ShardKey, bucket_for}
use pg_shard_router.Model.{
  ShardDef, BucketDef, MigrationState, state_active_source, state_copying, state_dual_write,
  state_cdc_catchup, state_verifying, state_cutover, state_draining_src, state_active_dest,
}
use pg_shard_router.Router.{Router, Resolved, resolve}
use pg_shard_router.Router.Refines.{resolve-eq-ok}
use pg_shard_router.Router.Spec.{
  Phase, on_source, on_both, on_dest, phase, Row, at_source, at_both, dest_missing, at_dest,
  Answers,
}

abbrev pub lifecycle : List MigrationState
lifecycle =
    state_active_source ∷ state_copying ∷ state_dual_write ∷ state_cdc_catchup ∷ state_verifying
    ∷ state_cutover ∷ state_draining_src ∷ state_active_dest ∷ []

-- Two states that follow one another in the list.
abbrev pub IsNext : List MigrationState → MigrationState → MigrationState → Type 0
IsNext [] s t = ⊥
IsNext (x ∷ []) s t = ⊥
IsNext (x ∷ y ∷ l) s t = ((s ≡ x) × (t ≡ y)) ⊎ IsNext (y ∷ l) s t

abbrev pub OneOf : ShardDef → List ShardDef → Type 0
OneOf x [] = ⊥
OneOf x (y ∷ ys) = (x ≡ y) ⊎ OneOf x ys

-- What a step forward does to the phase.
data Advances : Phase → Phase → Type 0 where
  stays : (p : Phase) → Advances p p
  joins : Advances on_source on_both
  leaves : Advances on_both on_dest

advances : (s t : MigrationState) → IsNext lifecycle s t → Advances (phase s) (phase t)
unfolding phase get bytes_beq
advances s t (inl (e, f)) = rw (e, f) (stays on_source)
advances s t (inr (inl (e, f))) = rw (e, f) joins
advances s t (inr (inr (inl (e, f)))) = rw (e, f) (stays on_both)
advances s t (inr (inr (inr (inl (e, f))))) = rw (e, f) (stays on_both)
advances s t (inr (inr (inr (inr (inl (e, f)))))) = rw (e, f) leaves
advances s t (inr (inr (inr (inr (inr (inl (e, f))))))) = rw (e, f) (stays on_dest)
advances s t (inr (inr (inr (inr (inr (inr (inl (e, f)))))))) = rw (e, f) (stays on_dest)
advances s t (inr (inr (inr (inr (inr (inr (inr x))))))) = elim x [ ]

-- The shard that a phase reads from, and those that it writes to, with both shards registered.
abbrev reads_from : Phase → ShardDef → ShardDef → ShardDef
reads_from on_dest source dest = dest
reads_from _ source dest = source

abbrev writes_to : Phase → ShardDef → ShardDef → List ShardDef
writes_to on_source source dest = source ∷ []
writes_to on_both source dest = source ∷ dest ∷ []
writes_to on_dest source dest = dest ∷ []

record IsOfPhase (p : Phase) (source dest : ShardDef) (res : Resolved) : Type 0 where
  reads : res.read_shard ≡ reads_from p source dest
  writes : res.write_shards ≡ writes_to p source dest

Row-IsOfPhase :
    (m : Mapping) (b : BucketDef) (source dest : ShardDef) (res : Resolved)
    → Row m b source res.read_shard res.write_shards
    → get b.dest_shard_id m.shards ≡ some dest
    → IsOfPhase (phase b.state) source dest res
Row-IsOfPhase m b source dest res (at_source p r w) known = rw p (record { reads = r; writes = w })
Row-IsOfPhase m b source dest res (at_both d p there r w) known =
    rw p (record { reads = r; writes = w ∙ cc (known, there) })
Row-IsOfPhase m b source dest res (dest_missing p missing r w) known = cc (known, missing)
Row-IsOfPhase m b source dest res (at_dest p there w) known =
    rw p (record { reads = cc (known, there); writes = w ∙ cc (known, there) })

-- The reads of the one are among the writes of the other.
abbrev pub Reaches : Resolved → Resolved → Type 0
Reaches reader writer = OneOf reader.read_shard writer.write_shards

Advances-Reaches :
    (p p' : Phase) (source dest : ShardDef) (res res' : Resolved)
    → Advances p p'
    → IsOfPhase p source dest res
    → IsOfPhase p' source dest res'
    → Reaches res' res × ((p ≡ p') ⊎ (p' ≢ on_dest) → Reaches res res')
Advances-Reaches _ _ source dest res res' (stays on_source) a b =
    (rw (b.reads, a.writes) (inl refl), λ o. rw (a.reads, b.writes) (inl refl))
Advances-Reaches _ _ source dest res res' (stays on_both) a b =
    (rw (b.reads, a.writes) (inl refl), λ o. rw (a.reads, b.writes) (inl refl))
Advances-Reaches _ _ source dest res res' (stays on_dest) a b =
    (rw (b.reads, a.writes) (inl refl), λ o. rw (a.reads, b.writes) (inl refl))
Advances-Reaches _ _ source dest res res' joins a b =
    (rw (b.reads, a.writes) (inl refl), λ o. rw (a.reads, b.writes) (inl refl))
Advances-Reaches _ _ source dest res res' leaves a b = (
  rw (b.reads, a.writes) (inr (inl refl)),
  λ o. absurd (elim o [ inl same ↦ cc | inr still ↦ still refl ]),
)

-- Two replicas of which the one has a bucket in a state and the other in the next, with the same
-- shards, of which source and destination are registered. The shard that the replica ahead reads from is
-- among those that the replica behind writes to: no write that went to all of its shards is
-- missed by going forward. The other way round holds too, except for the step to CUTOVER, after
-- which the replica behind reads from a source that the replica ahead no longer writes to.
pub resolve-Reaches :
    (key : ShardKey) (r r' : Router) (m m' : Mapping) (b b' : BucketDef) (source dest : ShardDef)
    (res res' : Resolved)
    → load r.store ≡ some m
    → load r'.store ≡ some m'
    → get (bucket_for key r.bucket_count) m.buckets ≡ some b
    → get (bucket_for key r'.bucket_count) m'.buckets ≡ some b'
    → IsNext lifecycle b.state b'.state
    → (get b.shard_id m.shards ≡ some source) × (get b'.shard_id m'.shards ≡ some source)
    → (get b.dest_shard_id m.shards ≡ some dest) × (get b'.dest_shard_id m'.shards ≡ some dest)
    → resolve key r ≡ ok res
    → resolve key r' ≡ ok res'
    → Reaches res' res
      × ((phase b.state ≡ phase b'.state) ⊎ (phase b'.state ≢ on_dest) → Reaches res res')
resolve-Reaches key r r' m m' b b' source dest res res' e e' a a' next sources dests answered
      answered' =
    let old : Answers m (bucket_for key r.bucket_count) b res =
      (resolve-eq-ok key r e a res).0 answered in
    let new : Answers m' (bucket_for key r'.bucket_count) b' res' =
      (resolve-eq-ok key r' e' a' res').0 answered' in
    let old_source : old.source ≡ source = cc (old.source_known, sources.0) in
    let new_source : new.source ≡ source = cc (new.source_known, sources.1) in
    Advances-Reaches (phase b.state) (phase b'.state) source dest res res'
      (advances b.state b'.state next)
      (Row-IsOfPhase m b source dest res
        (subst (λ x. Row m b x res.read_shard res.write_shards) old_source old.row) dests.0)
      (Row-IsOfPhase m' b' source dest res'
        (subst (λ x. Row m' b' x res'.read_shard res'.write_shards) new_source new.row) dests.1)
