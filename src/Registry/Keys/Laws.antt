-- ===== src/Registry/Keys/Laws.antt =====
-- The keys that a publisher writes are read back, and no key is both a shard's and a bucket's.
use pg_shard_router.Base.{
  ℕ, ◌≤◌, Bool, false, Option, none, some, [], ◌∷◌, ◌++◌, ◌≡◌, ◌==◌, refl, arith, ap, ◌∙◌,
}
use pg_shard_router.Base.Bytes.{
  Bytes, cut_prefix, cut_prefix-append, decimal, bytes_eq, bytes_beq_iff,
}
use pg_shard_router.Base.Int.{pos, max_int}
use pg_shard_router.Base.Strconv.{atoi-padded, padded}
use pg_shard_router.Registry.Keys.{
  shard_id_from_key, bucket_id_from_key, number_of, shards_prefix, buckets_prefix,
}

-- The key of a shard gives its identifier, and the key of a bucket its number, with any zeros in
-- front of the digits, where an `int` holds it.
pub id_from_key-append :
    ((id : Bytes) → shard_id_from_key (shards_prefix ++ id) ≡ some id)
    × ((k n : ℕ)
        → n ≤ max_int
        → bucket_id_from_key (buckets_prefix ++ padded k (decimal n)) ≡ some (pos n))
unfolding shard_id_from_key bucket_id_from_key
id_from_key-append = (
  λ id. cut_prefix-append shards_prefix id,
  λ k n h.
      ap number_of (cut_prefix-append buckets_prefix (padded k (decimal n))) ∙ atoi-padded k n h,
)

-- What is cut off stands in front of the rest.
cut_prefix-eq-some : (s p : Bytes) {rest : Bytes} → cut_prefix s p ≡ some rest → s ≡ p ++ rest
unfolding cut_prefix
cut_prefix-eq-some s [] h = ground arith
cut_prefix-eq-some [] (x ∷ p) h = ground arith
cut_prefix-eq-some (c ∷ s) (x ∷ p) {rest} h = ground (arith, cut_prefix-eq-some s p {rest = rest})

pub shard_id_from_key-eq-some :
    (key : Bytes) {id : Bytes} → shard_id_from_key key ≡ some id → key ≡ shards_prefix ++ id
unfolding shard_id_from_key
shard_id_from_key-eq-some key h = cut_prefix-eq-some key shards_prefix h

-- A shard's key is no bucket's key.
pub bucket_id_from_key-shard : (id : Bytes) → bucket_id_from_key (shards_prefix ++ id) ≡ none
unfolding bucket_id_from_key cut_prefix
bucket_id_from_key-shard id = refl

abbrev pub is_id : Option Bytes → Bytes → Bool
is_id none j = false
is_id (some id) j = id == j

-- The test of a whole key, by what the key names.
pub key-eq-shard : (key j : Bytes) → (key == shards_prefix ++ j) ≡ is_id (shard_id_from_key key) j
key-eq-shard key j = by_id (shard_id_from_key key) refl
  where
    by_id : (o : Option Bytes) → shard_id_from_key key ≡ o → (key == shards_prefix ++ j) ≡ is_id o j
    by_id none e = ground (
      arith,
      bytes_beq_iff key (shards_prefix ++ j),
      λ (h : key ≡ shards_prefix ++ j). ap shard_id_from_key h ∙ id_from_key-append.0 j,
    )
    by_id (some id) e = ground (
      arith,
      bytes_beq_iff key (shards_prefix ++ j),
      bytes_beq_iff id j,
      shard_id_from_key-eq-some key {id = id} e,
      λ (h : key ≡ shards_prefix ++ j). ap shard_id_from_key h ∙ id_from_key-append.0 j,
    )
