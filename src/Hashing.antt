-- ===== src/Hashing.antt =====
-- internal/hashing/hash.go: from a shard key to its virtual bucket.
pub mod Sha256
pub mod Range
pub mod Forms
mod Tests
use pg_shard_router.Base.{
  ℕ, ◌+◌, ◌-◌, ◌*◌, ◌/◌, ◌%◌, ◌^◌, [], ◌∷◌, ◌++◌, take, length, zero, suc, ltb, if◌then◌else◌,
  nat_beq,
}
use pg_shard_router.Base.Bytes.{Bytes, decimal, decimal_int}
use pg_shard_router.Base.Int.{ℤ, pos, negsuc, int_leb}
use Sha256.{sum256}

abbrev pub default_bucket_count : ℤ
default_bucket_count = pos 1024

-- The values that callers pass as `any`: a text, an `int`, a JSON number (which encoding/json
-- decodes to a float64; here the whole ones below 2^53, which a float64 holds exactly), and any
-- other value by the text that `%v` gives it.
pub data ShardKey : Type 0 where
  text : Bytes → ShardKey
  int : ℤ → ShardKey
  json_number : ℕ → ShardKey
  other : Bytes → ShardKey

-- The digits of a number without the zeros at their end, which the shortest form of a float drops.
pub strip_zeros : ℕ → ℕ → ℕ
strip_zeros zero n = n
strip_zeros (suc f) n = let rest = strip_zeros f (n / 10) in if nat_beq (n % 10) 0 then rest else n

-- A point after the first digit, if more follow.
pub with_point : Bytes → Bytes
with_point (d ∷ e ∷ ds) = d ∷ b'.' ∷ e ∷ ds
with_point ds = ds

-- The exponent of `%e` has two digits at least.
pub exponent : ℕ → Bytes
exponent n = (b'0' + n / 10) ∷ (b'0' + n % 10) ∷ []

-- `%v` of a float64 is `%g`: plain below 10^6, and with an exponent from there on.
unfoldable pub float_text : ℕ → Bytes
unfolding strip_zeros with_point exponent
float_text n =
    if ltb n 1_000_000
    then decimal n
    else with_point (decimal (strip_zeros 21 n)) ++ b'e' ∷ b'+' ∷ exponent (length (decimal n) - 1)

-- `fmt.Sprintf("%v", shardKey)`
unfoldable pub key_text : ShardKey → Bytes
unfolding float_text
key_text (text s) = s
key_text (int z) = decimal_int z
key_text (json_number n) = float_text n
key_text (other s) = s

-- `binary.BigEndian.Uint64`, over the bytes read so far.
unfoldable pub uint64_onto : ℕ → Bytes → ℕ
uint64_onto acc [] = acc
uint64_onto acc (b ∷ bs) = uint64_onto (acc * 256 + b) bs

-- The guard that `BucketFor` and `router.New` share.
unfoldable pub or_default_count : ℤ → ℤ
or_default_count n = if int_leb n (pos 0) then default_bucket_count else n

-- `int(n % uint64(bucketCount))`. `BucketFor` comes here with a count that is positive.
unfoldable pub bucket_of : ℕ → ℤ → ℤ
bucket_of n (pos c) = pos (n % c)
bucket_of n (negsuc c) = pos (n % (2 ^ 64 - suc c))

unfoldable pub bucket_for : ShardKey → ℤ → ℤ
unfolding key_text uint64_onto or_default_count bucket_of
bucket_for key bucket_count =
    bucket_of (uint64_onto 0 (take 8 (sum256 (key_text key)))) (or_default_count bucket_count)
