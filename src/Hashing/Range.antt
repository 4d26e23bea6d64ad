-- ===== src/Hashing/Range.antt =====
-- The digest is 32 bytes, and the bucket lies below the bucket count.
use pg_shard_router.Base.{ℕ, zero, suc, ◌%◌, ◌<◌, ◌≡◌, refl, take, arith}
use native.Mathlib.Nat.{mod-lt}
use pg_shard_router.Base.Int.{ℤ, pos, negsuc}
use pg_shard_router.Hashing.{ShardKey, key_text, uint64_onto, bucket_for}
use pg_shard_router.Hashing.Sha256.{sum256}

abbrev hashed : ShardKey → ℕ
hashed key = uint64_onto 0 (take 8 (sum256 (key_text key)))

-- The buckets there are for a configured count: 1024 if the count is not positive.
abbrev pub buckets_of : ℤ → ℕ
buckets_of (pos zero) = 1024
buckets_of (pos (suc n)) = suc n
buckets_of (negsuc n) = 1024

-- Every key has a bucket that is not negative and is below the number of buckets, also where the
-- configured count is zero or negative.
pub bucket_for-lt-count :
    (key : ShardKey) (count : ℤ) → (b : ℕ) × (bucket_for key count ≡ pos b) × (b < buckets_of count)
unfolding bucket_for
bucket_for-lt-count key (pos zero) = (hashed key % 1024, refl, omega arith)
bucket_for-lt-count key (pos (suc n)) = (hashed key % suc n, ground arith, mod-lt _ (omega arith))
bucket_for-lt-count key (negsuc n) = (hashed key % 1024, refl, omega arith)
