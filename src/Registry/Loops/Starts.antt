-- ===== src/Registry/Loops/Starts.antt =====
-- What `Start` leaves behind.
use pg_shard_router.Base.{ℕ, true, List, [], ◌≡◌, refl, ap, subst, ◌∙◌, inl, inr, ◌==◌, Bool-cases}
use pg_shard_router.Base.Bytes.{bytes_eq}
use pg_shard_router.Base.Int.{ℤ, inc_int}
use pg_shard_router.Base.Result.{Result, ok, err, Result-cases}
use pg_shard_router.Cache.{Store}
use pg_shard_router.Registry.Apply.{Json}
use pg_shard_router.Registry.Etcd.{load_all, consume, DecodedKv}
use pg_shard_router.Registry.Etcd.Revisions.{InSync, load-consume-InSync}
use pg_shard_router.Registry.Gateway.{Wire, RangeError, range_prefix}
use pg_shard_router.Registry.Http.{Network, authenticate}
use pg_shard_router.Registry.Keys.{prefix}
use pg_shard_router.Registry.Loops.{EtcdRegistry, StartError, start, start_load, reload}

-- What a start from a registry leaves, by its result.
pub record Outcome (json : Json) (reg : EtcdRegistry) (after : EtcdRegistry)
    (r : Result StartError ℤ) : Type 0 where
  pub succeeded :
      (rev : ℤ) → r ≡ ok rev → InSync json (after.store, inc_int rev) × (after.running ≡ true)
  pub failed :
      (e : StartError) → r ≡ err e → (after.store ≡ reg.store) × (after.running ≡ reg.running)

same_rev : {x y : ℤ} → ◌≡◌ {A = Result StartError ℤ} (ok x) (ok y) → x ≡ y
same_rev h = cc

-- Only the store and the flag count.
kept_store :
    {json : Json} {reg reg' after : EtcdRegistry} {r : Result StartError ℤ}
    → Outcome json reg' after r
    → (reg'.store ≡ reg.store) × (reg'.running ≡ reg.running)
    → Outcome json reg after r
kept_store o same = record {
  succeeded = o.succeeded;
  failed = λ e h. ((o.failed e h).0 ∙ same.0, (o.failed e h).1 ∙ same.1);
}

load_all-InSync :
    (json : Json) (answer : Result RangeError (List DecodedKv × ℤ)) (store : Store) (rev : ℤ)
    → (load_all json answer store).1 ≡ ok rev
    → InSync json ((load_all json answer store).0, inc_int rev)
unfolding load_all
load_all-InSync json (err e) store rev h = cc
load_all-InSync json (ok (kvs, r)) store rev h =
    let same : r ≡ rev = cc h in
    subst (λ x. InSync json ((load_all json (ok (kvs, r)) store).0, inc_int x)) same
      (unfold consume in load-consume-InSync json kvs r store [])

load_all-kept :
    (json : Json) (answer : Result RangeError (List DecodedKv × ℤ)) (store : Store) (e : RangeError)
    → (load_all json answer store).1 ≡ err e
    → (load_all json answer store).0 ≡ store
unfolding load_all
load_all-kept json (err f) store e h = refl
load_all-kept json (ok (kvs, r)) store e h = cc

module _ (json : Json) (wire : Wire) (net : Network) where
  start_load-Outcome :
      (reg : EtcdRegistry) (n : ℕ)
      → let r = start_load json wire net reg n in Outcome json reg r.0.0 r.1
  unfolding start_load reload
  start_load-Outcome reg n =
      let answer = (range_prefix wire net prefix (reg.client, n)).1 in
      elim (Result-cases (load_all json answer reg.store).1) [
        | inl (rev, e) ↦
            rw (e, start_load, reload)
              (record {
                succeeded =
                    λ x h. (load_all-InSync json answer reg.store x (e ∙ ap ok (same_rev h)), refl);
                failed = λ x h. cc;
              })
        | inr (e, f) ↦
            rw (f, start_load, reload)
              (record {
                succeeded = λ x h. cc;
                failed = λ x h. (load_all-kept json answer reg.store e f, refl);
              })
      ]

  -- A start of the etcd registry that succeeds leaves a map in the store, whose revision the first
  -- watch goes on from, and goroutines that run; one that fails leaves the store, and starts none.
  pub start-Outcome :
      (reg : EtcdRegistry) (n : ℕ) → let r = start json wire net reg n in Outcome json reg r.0.0 r.1
  unfolding start
  start-Outcome reg n = elim (Bool-cases (reg.cfg.username == [])) [
    | inl open_access ↦ rw (open_access, start) (start_load-Outcome reg n)
    | inr named ↦ elim (Result-cases (authenticate net (reg.client, n)).1) [
      | inl (done, e) ↦
          rw (named, e, start)
            (kept_store
              (start_load-Outcome (record reg { client = (authenticate net (reg.client, n)).0.0 })
                (authenticate net (reg.client, n)).0.1)
              (refl, refl))
      | inr (e, f) ↦
          rw (named, f, start) (record { succeeded = λ x h. cc; failed = λ x h. (refl, refl) })
    ]
  ]
