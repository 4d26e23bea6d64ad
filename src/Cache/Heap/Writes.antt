-- ===== src/Cache/Heap/Writes.antt =====
-- What a write through one pointer changes: that object, and nothing that another pointer sees.
use pg_shard_router.Base.{ℕ, suc, ◌<◌, [], ◌∷◌, ◌≡◌, ◌≢◌, refl, ap, subst, ◌∙◌, arith}
use pg_shard_router.Base.Bytes.{Bytes, bytes_eq}
use pg_shard_router.Base.Dict.{Dict, put}
use pg_shard_router.Base.Int.{ℤ, int_eq}
use pg_shard_router.Cache.{Mapping, clone, copy_into}
use pg_shard_router.Cache.Heap.{
  Heap, set_at, view, make_mapping, write_shards, write_buckets, set_revision, copy_shards,
  copy_buckets, clone_at,
}
use pg_shard_router.Model.{ShardDef, BucketDef}

-- No two mappings have a map in common.
abbrev pub IsSeparate : Heap → Type 0
IsSeparate h = (p : ℕ) → p < h.next → ((h.headers p).shards ≡ p) × ((h.headers p).buckets ≡ p)

-- `h'` differs from `h` at `p` at most, where it has `m`.
pub record Writes (p : ℕ) (h h' : Heap) (m : Mapping) : Type 0 where
  pub separate : IsSeparate h'
  pub same_next : h'.next ≡ h.next
  pub there : view p h' ≡ m
  pub elsewhere : (q : ℕ) → q < h.next → q ≢ p → view q h' ≡ view q h

-- `h'` has a new object `m` at `q`.
pub record Makes (q : ℕ) (h h' : Heap) (m : Mapping) : Type 0 where
  pub separate : IsSeparate h'
  pub fresh : q ≡ h.next
  pub one_more : h'.next ≡ suc h.next
  pub there : view q h' ≡ m
  pub elsewhere : (p : ℕ) → p < h.next → view p h' ≡ view p h

pub Writes-trans :
    {p : ℕ} {h h' h'' : Heap} {m m' : Mapping}
    → Writes p h h' m
    → Writes p h' h'' m'
    → Writes p h h'' m'
Writes-trans a b = record {
  separate = b.separate;
  same_next = b.same_next ∙ a.same_next;
  there = b.there;
  elsewhere = λ q lt ne. b.elsewhere q (rw (a.same_next) lt) ne ∙ a.elsewhere q lt ne;
}

pub Makes-Writes :
    {q : ℕ} {h h' h'' : Heap} {m m' : Mapping}
    → Makes q h h' m
    → Writes q h' h'' m'
    → Makes q h h'' m'
Makes-Writes a b = record {
  separate = b.separate;
  fresh = a.fresh;
  one_more = b.same_next ∙ a.one_more;
  there = b.there;
  elsewhere = λ p lt.
      b.elsewhere p (omega (arith, a.one_more)) (λ e. omega (arith, a.fresh)) ∙ a.elsewhere p lt;
}

pub Writes-same : (p : ℕ) (h : Heap) → IsSeparate h → Writes p h h (view p h)
Writes-same p h s = record {
  separate = s;
  same_next = refl;
  there = refl;
  elsewhere = λ q lt ne. refl;
}

pub make_mapping-Makes :
    (rev : ℤ) (h : Heap)
    → IsSeparate h
    → Makes h.next h (make_mapping rev h).0 (record { revision = rev; shards = []; buckets = [] })
unfolding make_mapping set_at
make_mapping-Makes rev h s = record {
  separate = λ p lt. ground (arith, s p);
  fresh = refl;
  one_more = refl;
  there = ground arith;
  elsewhere = λ p lt. ground (arith, s p lt);
}

module _ (p : ℕ) (h : Heap) (s : IsSeparate h) (lt : p < h.next) where
  pub write_shards-Writes :
      (f : Dict Bytes ShardDef → Dict Bytes ShardDef)
      → Writes p h (write_shards p f h) (record (view p h) { shards = f (view p h).shards })
  unfolding write_shards set_at
  write_shards-Writes f = record {
    separate = s;
    same_next = refl;
    there = ground arith;
    elsewhere = λ q l ne. ground (arith, s p lt, s q l);
  }

  pub write_buckets-Writes :
      (f : Dict ℤ BucketDef → Dict ℤ BucketDef)
      → Writes p h (write_buckets p f h) (record (view p h) { buckets = f (view p h).buckets })
  unfolding write_buckets set_at
  write_buckets-Writes f = record {
    separate = s;
    same_next = refl;
    there = ground arith;
    elsewhere = λ q l ne. ground (arith, s p lt, s q l);
  }

  pub set_revision-Writes :
      (rev : ℤ) → Writes p h (set_revision p rev h) (record (view p h) { revision = rev })
  unfolding set_revision set_at
  set_revision-Writes rev = record {
    separate = λ q l. ground (arith, s q l);
    same_next = refl;
    there = ground arith;
    elsewhere = λ q l ne. ground arith;
  }

pub copy_shards-Writes :
    (p : ℕ) (m : Dict Bytes ShardDef) (h : Heap)
    → IsSeparate h
    → p < h.next
    → Writes p h (copy_shards p m h) (record (view p h) { shards = copy_into (view p h).shards m })
unfolding copy_shards copy_into
copy_shards-Writes p [] h s lt = Writes-same p h s
copy_shards-Writes p ((k, v) ∷ m) h s lt =
    let before = copy_shards-Writes p m h s lt in
    Writes-trans before (
      subst
        (λ x.
          Writes p (copy_shards p m h) (write_shards p (put k v) (copy_shards p m h))
            (record x { shards = put k v x.shards }))
        before.there
        (write_shards-Writes p (copy_shards p m h) before.separate (rw (before.same_next) lt)
          (put k v)))

pub copy_buckets-Writes :
    (p : ℕ) (m : Dict ℤ BucketDef) (h : Heap)
    → IsSeparate h
    → p < h.next
    → Writes p h
        (copy_buckets p m h)
        (record (view p h) { buckets = copy_into (view p h).buckets m })
unfolding copy_buckets copy_into
copy_buckets-Writes p [] h s lt = Writes-same p h s
copy_buckets-Writes p ((k, v) ∷ m) h s lt =
    let before = copy_buckets-Writes p m h s lt in
    Writes-trans before (
      subst
        (λ x.
          Writes p (copy_buckets p m h) (write_buckets p (put k v) (copy_buckets p m h))
            (record x { buckets = put k v x.buckets }))
        before.there
        (write_buckets-Writes p (copy_buckets p m h) before.separate (rw (before.same_next) lt)
          (put k v)))

pub clone_at-Makes :
    (p : ℕ) (h : Heap)
    → IsSeparate h
    → p < h.next
    → Makes h.next h (clone_at p h).0 (clone (view p h))
unfolding clone_at clone make_mapping
clone_at-Makes p h s lt =
    let made = make_mapping-Makes (view p h).revision h s in
    let empty = (make_mapping (view p h).revision h).0 in
    let shards =
      copy_shards-Writes h.next (view p h).shards empty made.separate
        (omega (arith, made.one_more)) in
    let buckets =
      copy_buckets-Writes h.next (view p h).buckets (copy_shards h.next (view p h).shards empty)
        shards.separate (omega (arith, made.one_more, shards.same_next)) in
    let with_buckets : Mapping → Mapping =
      λ x. record x { buckets = copy_into x.buckets (view p h).buckets } in
    let with_shards : Mapping → Mapping =
      λ x. record x { shards = copy_into x.shards (view p h).shards } in
    subst (Makes h.next h (clone_at p h).0)
      (ap with_buckets shards.there ∙ ap (λ x. with_buckets (with_shards x)) made.there)
      (Makes-Writes made (Writes-trans shards buckets))
