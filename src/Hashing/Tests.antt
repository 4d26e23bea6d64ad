-- ===== src/Hashing/Tests.antt =====
-- The golden vectors, and the theorems at concrete inputs.
use pg_shard_router.Base.{ℕ, ◌≡◌, ◌≢◌, refl, ◌<◌, arith, [], ◌∷◌, map}
use pg_shard_router.Base.Bytes.{codes, decimal}
use pg_shard_router.Base.Int.{pos, negsuc}
use pg_shard_router.Hashing.{text, json_number, bucket_for, key_text}
use pg_shard_router.Hashing.Sha256.{sum256}
use pg_shard_router.Hashing.Range.{bucket_for-lt-count}
use pg_shard_router.Hashing.Forms.{key_text-json_number-ne}

-- testdata/golden_vectors.json
golden_vectors :
    map
      (λ s. bucket_for (text (codes s)) (pos 1024))
      ("1" ∷ "42" ∷ "tenant-abc" ∷ "9223372036854775807" ∷ "0" ∷ "1000000" ∷ "merchant-9F3A"
        ∷ "wallet-000123" ∷ [])
    ≡ pos 225 ∷ pos 653 ∷ pos 330 ∷ pos 703 ∷ pos 824 ∷ pos 337 ∷ pos 375 ∷ pos 456 ∷ []
unfolding bucket_for sum256
golden_vectors = refl

-- The key of the sixth vector as a JSON number: another bucket.
json_million : bucket_for (json_number 1000000) (pos 1024) ≡ pos 21
unfolding bucket_for sum256 decimal
json_million = refl

bucket_for-lt-count_example :
    (b : ℕ) × (bucket_for (text (codes "tenant-1")) (negsuc 4) ≡ pos b) × (b < 1024)
bucket_for-lt-count_example = bucket_for-lt-count (text (codes "tenant-1")) (negsuc 4)

key_text-json_number-ne_example : key_text (json_number 1000000) ≢ key_text (text (decimal 1000000))
key_text-json_number-ne_example = key_text-json_number-ne 1000000 (omega arith)
