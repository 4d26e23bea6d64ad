-- ===== src/Registry/Etcd/Follows.antt =====
-- The local map follows the key-space of etcd.
use pg_shard_router.Base.{
  Bool, true, false, Option, none, some, [], ◌++◌, ◌≡◌, ◌≢◌, inl, inr, refl, ◌∙◌, ap, arith, ◌==◌,
  if◌then◌else◌, Bool-cases,
}
use pg_shard_router.Base.Bytes.{Bytes, bytes_eq, bytes_beq_iff}
use pg_shard_router.Base.Dict.{Dict, get, put, delete, get-put, get-delete}
use pg_shard_router.Base.Int.{ℤ, int_eq, int_beq_iff}
use pg_shard_router.Cache.{Mapping}
use pg_shard_router.Registry.Keys.{bucket_id_from_key, shards_prefix}
use pg_shard_router.Registry.Apply.{Json, apply_kv}
use pg_shard_router.Registry.Apply.Laws.{
  shard_of, bucket_of, entry_after, bucket_after, or_keep, apply_kv-entries,
}
use pg_shard_router.Registry.Etcd.{WatchEvent, event_put, event_delete}

-- The key-space of etcd, and what an event says has happened to it.
abbrev pub Keyspace : Type 0
Keyspace = Dict Bytes Bytes

unfoldable pub happened : Keyspace → WatchEvent → Keyspace
happened kvs ev =
    if ev.kind == event_put
    then put ev.key ev.value kvs
    else if ev.kind == event_delete
    then delete ev.key kvs
    else kvs

abbrev pub and_then {ℓ} : {A B : Type ℓ} → Option A → (A → Option B) → Option B
and_then none f = none
and_then (some a) f = f a

or_keep-of_some {ℓ} : {A : Type ℓ} (o old : Option A) → o ≢ none → or_keep o old ≡ o
or_keep-of_some none old h = absurd (h refl)
or_keep-of_some (some a) old h = refl

abbrev is_num : Option ℤ → ℤ → Bool
is_num none i = false
is_num (some k) i = k == i

-- `name i` is the key that the publisher uses for bucket `i`: "/sharding/buckets/0527" or
-- "/sharding/buckets/527", say, which both read as 527.
module _ (json : Json) (name : ℤ → Bytes) where
  -- Each entry of the map is what its key holds in the key-space.
  pub record Tracks (kvs : Keyspace) (m : Mapping) : Type 0 where
    pub shards :
        (j : Bytes) → get j m.shards ≡ and_then (get (shards_prefix ++ j) kvs) (shard_of json j)
    pub buckets :
        (i : ℤ)
        → bucket_id_from_key (name i) ≡ some i
        → get i m.buckets ≡ and_then (get (name i) kvs) (bucket_of json i)

  -- A value under a shard's or a bucket's key decodes.
  pub record Decodes (key value : Bytes) : Type 0 where
    pub shard : (j : Bytes) → key ≡ shards_prefix ++ j → shard_of json j value ≢ none
    pub bucket : (i : ℤ) → bucket_id_from_key key ≡ some i → bucket_of json i value ≢ none

  -- A bucket is written under its own key only.
  abbrev pub IsNamed : Bytes → Type 0
  IsNamed key = (i : ℤ) → bucket_id_from_key key ≡ some i → key ≡ name i

  pub record IsWellFormed (ev : WatchEvent) : Type 0 where
    pub named : IsNamed ev.key
    pub decodes : ev.kind ≡ event_put → Decodes ev.key ev.value

  name-test :
      (key : Bytes) (i : ℤ) (o : Option ℤ)
      → IsNamed key
      → bucket_id_from_key (name i) ≡ some i
      → bucket_id_from_key key ≡ o
      → (key == name i) ≡ is_num o i
  name-test key i none h known e =
      ground (arith, bytes_beq_iff key (name i), λ (p : key ≡ name i). ap bucket_id_from_key p)
  name-test key i (some k) h known e = ground (
    arith,
    bytes_beq_iff key (name i),
    int_beq_iff k i,
    h k e,
    λ (p : key ≡ name i). ap bucket_id_from_key p,
    λ (p : k ≡ i). ap name p,
  )

  module _ {kvs : Keyspace} {m : Mapping} (t : Tracks kvs m) (key : Bytes)
      (named : IsNamed key) where
    -- The entry of bucket `i`, whatever the value.
    bucket_step :
        (value : Bytes) (deleted : Bool) (i : ℤ) (o : Option ℤ)
        → bucket_id_from_key (name i) ≡ some i
        → bucket_id_from_key key ≡ o
        → bucket_after json o i value deleted (get i m.buckets) ≡ (
            if key == name i
            then entry_after deleted (bucket_of json i value) (get i m.buckets)
            else and_then (get (name i) kvs) (bucket_of json i))
    bucket_step value deleted i none known e =
        rw (name-test key i none named known e) (t.buckets i known)
    bucket_step value deleted i (some k) known e =
        rw (name-test key i (some k) named known e) (ground (arith, t.buckets i known))

    pub put-Tracks :
        (value : Bytes)
        → Decodes key value
        → Tracks (put key value kvs) (apply_kv json m key value false).0
    put-Tracks value d = record {
      shards = λ j. (apply_kv-entries json m key value false).0 j ∙ (rw get-put (put_shard j));
      buckets = λ i known.
          (apply_kv-entries json m key value false).1 i
          ∙ bucket_step value false i (bucket_id_from_key key) known refl
          ∙ (rw get-put (put_bucket i known));
    }
      where
        put_shard :
            (j : Bytes)
            → (if key == shards_prefix ++ j
                then or_keep (shard_of json j value) (get j m.shards)
                else get j m.shards)
              ≡ and_then
                  (if key == shards_prefix ++ j then some value else get (shards_prefix ++ j) kvs)
                  (shard_of json j)
        put_shard j = elim (Bool-cases (key == shards_prefix ++ j)) [
          | inl e ↦ rw e (or_keep-of_some _ _ (d.shard j ((bytes_beq_iff key _).0 e)))
          | inr e ↦ rw e (t.shards j)
        ]

        put_bucket :
            (i : ℤ)
            → bucket_id_from_key (name i) ≡ some i
            → (if key == name i
                then or_keep (bucket_of json i value) (get i m.buckets)
                else and_then (get (name i) kvs) (bucket_of json i))
              ≡ and_then (if key == name i then some value else get (name i) kvs) (bucket_of json i)
        put_bucket i known = elim (Bool-cases (key == name i)) [
          | inl e ↦ rw e (
              or_keep-of_some _ _
                (d.bucket i (ap bucket_id_from_key ((bytes_beq_iff key (name i)).0 e) ∙ known)))
          | inr e ↦ rw e
        ]

    pub delete-Tracks : Tracks (delete key kvs) (apply_kv json m key [] true).0
    delete-Tracks = record {
      shards = λ j. (apply_kv-entries json m key [] true).0 j ∙ (rw get-delete (delete_shard j));
      buckets = λ i known.
          (apply_kv-entries json m key [] true).1 i
          ∙ bucket_step [] true i (bucket_id_from_key key) known refl
          ∙ (rw get-delete (delete_bucket i));
    }
      where
        delete_shard :
            (j : Bytes)
            → (if key == shards_prefix ++ j then none else get j m.shards)
              ≡ and_then
                  (if key == shards_prefix ++ j then none else get (shards_prefix ++ j) kvs)
                  (shard_of json j)
        delete_shard j = elim (Bool-cases (key == shards_prefix ++ j)) [
          | inl e ↦ rw e
          | inr e ↦ rw e (t.shards j)
        ]

        delete_bucket :
            (i : ℤ)
            → (if key == name i then none else and_then (get (name i) kvs) (bucket_of json i))
              ≡ and_then (if key == name i then none else get (name i) kvs) (bucket_of json i)
        delete_bucket i = elim (Bool-cases (key == name i)) [ inl e ↦ rw e | inr e ↦ rw e ]
