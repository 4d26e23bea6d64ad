-- ===== src/Registry/Sample.antt =====
-- A decoder, a few pairs of etcd and their well-formedness, for the tests.
use pg_shard_router.Base.{
  All, ltb, ◌&&◌, Bool, ◌<◌, true, none, some, List, [], ◌∷◌, ◌++◌, ◌≡◌, refl, subst, arith,
}
use pg_shard_router.Base.Bytes.{Bytes, codes, decimal_int, cut_prefix, bytes_eq}
use pg_shard_router.Base.Int.{ℤ, pos, int_eq}
use pg_shard_router.Base.Strconv.{atoi}
use pg_shard_router.Model.{shard_active}
use pg_shard_router.Registry.Keys.{buckets_prefix, shards_prefix, bucket_id_from_key}
use pg_shard_router.Registry.Apply.{Json}
use pg_shard_router.Registry.Etcd.{DecodedKv}
use pg_shard_router.Registry.Etcd.Follows.{IsWellFormed, Decodes}

-- A decoder that takes any text: as the region of a shard, and as the shard of a bucket.
abbrev pub json : Json
json = record {
  shard = λ v. some (record {
    shard_id = [];
    status = shard_active;
    writer = record { host = codes "pg"; port = pos 6432; database = codes "payment" };
    reader = none;
    credential_ref = codes "secret/payment/postgresql";
    region = v;
  });
  bucket = λ v. some (record {
    bucket_id = pos 0;
    shard_id = v;
    dest_shard_id = [];
    state = [];
    mapping_version = pos 0;
  });
}

abbrev pub name : ℤ → Bytes
name i = buckets_prefix ++ decimal_int i

Decodes-json : (key value : Bytes) → Decodes json name key value
Decodes-json key value = record { shard = λ j e h. cc h; bucket = λ i e h. cc h }

abbrev pub kvs : List DecodedKv
kvs =
    record { key = shards_prefix ++ codes "shard-01"; value = codes "jakarta" }
    ∷ record { key = buckets_prefix ++ codes "7"; value = codes "shard-01" }
    ∷ []

bucket_7 : bucket_id_from_key (buckets_prefix ++ codes "7") ≡ some (pos 7)
unfolding bucket_id_from_key cut_prefix atoi
bucket_7 = refl

no_bucket : bucket_id_from_key (shards_prefix ++ codes "shard-01") ≡ none
unfolding bucket_id_from_key cut_prefix
no_bucket = refl

name_7 : buckets_prefix ++ codes "7" ≡ name (pos 7)
unfolding decimal_int
name_7 = refl

pub IsWellFormed-shard :
    (kind value : Bytes)
    → IsWellFormed json name
        (record { kind = kind; key = shards_prefix ++ codes "shard-01"; value = value })
IsWellFormed-shard kind value = record {
  named = λ i e. cc (e, no_bucket);
  decodes = λ p. Decodes-json _ value;
}

pub IsWellFormed-bucket :
    (kind value : Bytes)
    → IsWellFormed json name
        (record { kind = kind; key = buckets_prefix ++ codes "7"; value = value })
IsWellFormed-bucket kind value = record {
  named = λ i e. subst (λ k. buckets_prefix ++ codes "7" ≡ name k) (cc (e, bucket_7)) name_7;
  decodes = λ p. Decodes-json _ value;
}

abbrev pub are_bytes : Bytes → Bool
are_bytes [] = true
are_bytes (b ∷ s) = ltb b 256 && are_bytes s

pub AreBytes-tested : (s : Bytes) → are_bytes s ≡ true → All (λ b. b < 256) s
AreBytes-tested [] h = tt
AreBytes-tested (b ∷ s) h =
    let here : ltb b 256 ≡ true = ground (arith, h) in
    let rest : are_bytes s ≡ true = ground (arith, h) in
    (ground (arith, here), AreBytes-tested s rest)
