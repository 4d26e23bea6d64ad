-- ===== src/Router/Errors.antt =====
-- The errors of `resolve`: each one exactly where the description says.
use pg_shard_router.Base.{
  none, some, inl, inr, List, [], ◌∷◌, ◌++◌, ◌≡◌, ◌≢◌, ◌⊎◌, ◌↔◌, ◌∙◌, subst, sym, refl, All, arith,
  Bool-cases, Option-cases, ◌==◌,
}
use pg_shard_router.Base.Bytes.{bytes_eq, bytes_beq_iff}
use pg_shard_router.Base.Dict.{get}
use pg_shard_router.Base.Int.{ℤ, int_eq}
use pg_shard_router.Base.Result.{ok, err, ◌>>=◌, Result-cases}
use pg_shard_router.Cache.{Mapping, load}
use pg_shard_router.Hashing.{ShardKey, bucket_for}
use pg_shard_router.Model.{ShardDef, BucketDef, shard_active}
use pg_shard_router.Router.{
  RouteError, Resolved, Router, migrate, refuse_inactive, resolve, no_mapping, unknown_bucket,
  unknown_shard, shard_unavailable,
}
use pg_shard_router.Router.Refines.{
  start, route, route-known, resolve-route, migrate-Fits, migrate-of_Row, checked, phase_by_tests,
}
use pg_shard_router.Router.Spec.{
  on_dest, phase, Row, at_source, at_both, dest_missing, at_dest, IsActive, FirstInactive, Refuses,
  no_source, no_dest, inactive,
}

migrate-eq-err :
    (m : Mapping) (b : BucketDef) (i : ℤ) (source : ShardDef) (e : RouteError)
    → migrate m b (start m b i source) ≡ err e
    → (phase b.state ≡ on_dest)
      × (get b.dest_shard_id m.shards ≡ none)
      × (e ≡ unknown_shard b.dest_shard_id i)
unfolding migrate
migrate-eq-err m b i source e h = ground (arith, phase_by_tests b.state)

refuse_inactive-eq-err :
    (ws : List ShardDef) (r : Resolved) (e : RouteError)
    → refuse_inactive ws r ≡ err e
    → (s : ShardDef) × FirstInactive (ws ++ r.read_shard ∷ []) s
      × (e ≡ shard_unavailable s.shard_id)
unfolding refuse_inactive
refuse_inactive-eq-err [] r e h =
    (r.read_shard, ground (arith, bytes_beq_iff r.read_shard.status shard_active), ground arith)
refuse_inactive-eq-err (w ∷ ws) r e h = elim (Bool-cases (w.status == shard_active)) [
  | inl active ↦
      let (s, first, named) = refuse_inactive-eq-err ws r e (ground arith) in
      (s, inr ((bytes_beq_iff w.status shard_active).0 active, first), named)
  | inr passive ↦
      (w, inl (λ a. cc (passive, (bytes_beq_iff w.status shard_active).1 a), refl), ground arith)
]

FirstInactive-append :
    (ws : List ShardDef) (r s : ShardDef)
    → FirstInactive (ws ++ r ∷ []) s
    → FirstInactive ws s ⊎ All IsActive ws × (¬ IsActive r)
FirstInactive-append [] r s (inl (passive, e)) = inr (tt, passive)
FirstInactive-append [] r s (inr (_, none_left)) = absurd none_left
FirstInactive-append (w ∷ ws) r s (inl here) = inl (inl here)
FirstInactive-append (w ∷ ws) r s (inr (a, later)) = elim (FirstInactive-append ws r s later) [
  | inl found ↦ inl (inr (a, found))
  | inr (all, passive) ↦ inr ((a, all), passive)
]

Row-read-IsActive :
    {m : Mapping} {b : BucketDef} {source read : ShardDef} {writes : List ShardDef}
    → Row m b source read writes
    → All IsActive writes
    → IsActive read
Row-read-IsActive (at_source p r w) h = rw r (subst (All IsActive) w h).0
Row-read-IsActive (at_both dest p known r w) h = rw r (subst (All IsActive) w h).0
Row-read-IsActive (dest_missing p known r w) h = rw r (subst (All IsActive) w h).0
Row-read-IsActive (at_dest p known w) h = (subst (All IsActive) w h).0

-- The test of the read shard finds nothing new: that shard is the first of those written to.
FirstInactive-writes :
    {m : Mapping} {b : BucketDef} {source read : ShardDef} (writes : List ShardDef) (s : ShardDef)
    → Row m b source read writes
    → FirstInactive (writes ++ read ∷ []) s
    → FirstInactive writes s
FirstInactive-writes {read = read} writes s row h = elim (FirstInactive-append writes read s h) [
  | inl found ↦ found
  | inr (all, passive) ↦ absurd (passive (Row-read-IsActive row all))
]

refuse_inactive-first :
    (ws : List ShardDef) (r : Resolved) (s : ShardDef)
    → FirstInactive ws s
    → refuse_inactive ws r ≡ err (shard_unavailable s.shard_id)
unfolding refuse_inactive
refuse_inactive-first [] r s h = elim h [ ]
refuse_inactive-first (w ∷ ws) r s h =
    ground (arith, bytes_beq_iff w.status shard_active, refuse_inactive-first ws r s)

module _ (m : Mapping) (i : ℤ) (b : BucketDef) where
  route-Refuses : (e : RouteError) → route m i b ≡ err e → Refuses m i b e
  route-Refuses e h = elim (Option-cases (get b.shard_id m.shards)) [
    | inl missing ↦ no_source missing (unfold route in ground arith)
    | inr (source, known) ↦ elim (Result-cases (migrate m b (start m b i source))) [
      | inl (res, made) ↦
          let fits = migrate-Fits m b i source res made in
          let (s, first, named) =
            refuse_inactive-eq-err res.write_shards res e (rest source known made h) in
          inactive source res.read_shard res.write_shards s known fits.row
            (FirstInactive-writes res.write_shards s fits.row first) named
      | inr (e', failed) ↦
          let (moved, missing, named) = migrate-eq-err m b i source e' failed in
          no_dest source known moved missing (same source known failed h ∙ named)
    ]
  ]
    where
      rest :
          (source : ShardDef) {res : Resolved}
          → get b.shard_id m.shards ≡ some source
          → migrate m b (start m b i source) ≡ ok res
          → route m i b ≡ err e
          → refuse_inactive res.write_shards res ≡ err e
      rest source known made h = unfold checked in cc (route-known m i b source known, made)

      same :
          (source : ShardDef) {e' : RouteError}
          → get b.shard_id m.shards ≡ some source
          → migrate m b (start m b i source) ≡ err e'
          → route m i b ≡ err e
          → e ≡ e'
      same source {e'} known failed h =
          let chain : (err e' >>= checked) ≡ err e =
            subst (λ r. (r >>= checked) ≡ err e) failed
              (sym (route-known m i b source known) ∙ h) in
          cc chain

  route-of_Refuses : (e : RouteError) → Refuses m i b e → route m i b ≡ err e
  route-of_Refuses e (no_source missing named) = unfold route in rw (missing, named)
  route-of_Refuses e (no_dest source known moved missing named) =
      route-known m i b source known ∙ (unfold migrate in ground (arith, phase_by_tests b.state))
  route-of_Refuses e (inactive source read writes s known row first named) =
      let res : Resolved = record {
        bucket_id = i;
        read_shard = read;
        write_shards = writes;
        migration_state = b.state;
      } in
      route-known m i b source known
      ∙ (rw (migrate-of_Row m i b source res row refl refl)
          (unfold checked in rw named (refuse_inactive-first writes res s first)))

module _ (key : ShardKey) (r : Router) {m : Mapping} {b : BucketDef}
    (loaded : load r.store ≡ some m)
    (assigned : get (bucket_for key r.bucket_count) m.buckets ≡ some b) where
  -- With a map loaded and the key's bucket assigned, `resolve` fails with exactly these errors: an
  -- unknown shard, where the source is not registered, or where the bucket has been cut over and
  -- the destination is not; an unavailable shard, which is the first inactive one of those that
  -- the table has written to.
  pub resolve-eq-err :
      (e : RouteError) → (resolve key r ≡ err e) ↔ Refuses m (bucket_for key r.bucket_count) b e
  resolve-eq-err e = (
    λ h. route-Refuses m _ b e (sym (resolve-route key r loaded assigned) ∙ h),
    λ x. resolve-route key r loaded assigned ∙ route-of_Refuses m _ b e x,
  )

Refuses-names :
    (m : Mapping) (i j : ℤ) (b : BucketDef) (e : RouteError)
    → Refuses m i b e
    → (e ≢ no_mapping) × (e ≢ unknown_bucket j)
Refuses-names m i j b e (no_source missing named) = (λ x. cc, λ x. cc)
Refuses-names m i j b e (no_dest source known moved missing named) = (λ x. cc, λ x. cc)
Refuses-names m i j b e (inactive source read writes s known row first named) = (λ x. cc, λ x. cc)

module _ (key : ShardKey) (r : Router) where
  unloaded : load r.store ≡ none → resolve key r ≡ err no_mapping
  unfolding resolve
  unloaded h = rw h

  unassigned :
      {m : Mapping}
      → load r.store ≡ some m
      → get (bucket_for key r.bucket_count) m.buckets ≡ none
      → resolve key r ≡ err (unknown_bucket (bucket_for key r.bucket_count))
  unfolding resolve
  unassigned h e = rw (h, e)

  -- Loaded and assigned, or an error that is known.
  data Case : Type 0 where
    not_loaded : load r.store ≡ none → Case
    not_assigned :
        (m : Mapping)
        → load r.store ≡ some m
        → get (bucket_for key r.bucket_count) m.buckets ≡ none
        → Case
    assigned :
        (m : Mapping) (b : BucketDef)
        → load r.store ≡ some m
        → get (bucket_for key r.bucket_count) m.buckets ≡ some b
        → Case

  cases : Case
  cases = elim (Option-cases (load r.store)) [
    | inl h ↦ not_loaded h
    | inr (m, h) ↦ elim (Option-cases (get (bucket_for key r.bucket_count) m.buckets)) [
      | inl e ↦ not_assigned m h e
      | inr (b, e) ↦ assigned m b h e
    ]
  ]

  abbrev Unassigned : ℤ → Type 0
  Unassigned i =
      (m : Mapping) × (load r.store ≡ some m)
      × (get i m.buckets ≡ none)
      × (i ≡ bucket_for key r.bucket_count)

  Unassigned-inv :
      (i : ℤ)
      → Case
      → (resolve key r ≡ err no_mapping → load r.store ≡ none)
        × (resolve key r ≡ err (unknown_bucket i) → Unassigned i)
  Unassigned-inv i (not_loaded h) = (λ x. h, λ x. cc (unloaded h))
  Unassigned-inv i (not_assigned m h e) = (
    λ x. cc (unassigned h e),
    λ x.
        let same : bucket_for key r.bucket_count ≡ i = cc (unassigned h e) in
        (m, h, rw (← same) e, sym same),
  )
  Unassigned-inv i (assigned m b h e) = (
    λ x. absurd ((Refuses-names m _ i b _ ((resolve-eq-err key r h e _).0 x)).0 refl),
    λ x. absurd ((Refuses-names m _ i b _ ((resolve-eq-err key r h e _).0 x)).1 refl),
  )

  -- The missing-map error comes exactly before the first load; and the unknown-bucket error
  -- exactly where a map is loaded that does not assign the bucket of the key, which the error names.
  pub resolve-Unassigned :
      (i : ℤ)
      → ((resolve key r ≡ err no_mapping) ↔ (load r.store ≡ none))
        × ((resolve key r ≡ err (unknown_bucket i)) ↔ Unassigned i)
  resolve-Unassigned i = (
    ((Unassigned-inv i cases).0, unloaded),
    ((Unassigned-inv i cases).1, λ u. rw u.3 (unassigned u.1 (rw (← u.3) u.2))),
  )
