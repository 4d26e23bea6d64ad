-- ===== src/Registry/Tests.antt =====
-- The theorems on keys and single entries at concrete inputs, and the cases of apply_test.go.
use pg_shard_router.Base.Result.{ok, err}
use pg_shard_router.Base.{zero, suc, ap, ◌≢◌, false, none, some, [], ◌∷◌, ◌++◌, ◌≡◌, refl, arith}
use pg_shard_router.Base.Bytes.{
  Bytes, codes, decimal, cut_prefix, bytes_eq, bytes_beq, bytes_beq_iff,
}
use pg_shard_router.Base.Dict.{get, put}
use pg_shard_router.Base.Int.{pos, negsuc, int_eq}
use pg_shard_router.Base.Strconv.{atoi, padded}
use pg_shard_router.Cache.{Mapping}
use pg_shard_router.Model.{BucketDef}
use pg_shard_router.Registry.Keys.{shard_id_from_key, bucket_id_from_key, buckets_prefix}
use pg_shard_router.Registry.Keys.Laws.{id_from_key-append}
use pg_shard_router.Registry.Apply.{Json, decode_shard, apply_kv, set_id}
use pg_shard_router.Registry.Http.{
  Client, Network, failed, answered, no_endpoints, authenticate, post_any,
}
use pg_shard_router.Registry.Http.Bounds.{Spends, post_any-Spends}
use pg_shard_router.Registry.Http.Failover.{post_any_expired_token}
use pg_shard_router.Registry.RangeEnd.{get_prefix_range_end}
use pg_shard_router.Registry.RangeEnd.Selects.{in_range, has_prefix, in_range-get_prefix_range_end}

bucket_key : bucket_id_from_key (codes "/sharding/buckets/0527") ≡ some (pos 527)
unfolding bucket_id_from_key cut_prefix atoi
bucket_key = refl

negative_key : bucket_id_from_key (codes "/sharding/buckets/-5") ≡ some (negsuc 4)
unfolding bucket_id_from_key cut_prefix atoi
negative_key = refl

bad_keys :
    (bucket_id_from_key (codes "/sharding/buckets/5x") ≡ none)
    × (bucket_id_from_key (codes "/sharding/buckets/9223372036854775808") ≡ none)
    × (shard_id_from_key (codes "/sharding/version") ≡ none)
unfolding bucket_id_from_key shard_id_from_key cut_prefix atoi
bad_keys = (refl, refl, refl)

id_from_key-append_example :
    bucket_id_from_key (buckets_prefix ++ padded 1 (decimal 527)) ≡ some (pos 527)
id_from_key-append_example = id_from_key-append.1 1 527 (omega arith)

-- A decoder that accepts a bucket's definition, and no shard's.
abbrev json : Json
json = record {
  shard = λ v. none;
  bucket = λ v. some (record {
    bucket_id = pos 0;
    shard_id = v;
    dest_shard_id = [];
    state = [];
    mapping_version = pos 0;
  });
}

abbrev empty : Mapping
empty = record { revision = pos 1; shards = []; buckets = [] }

abbrev entry : BucketDef
entry = record {
  bucket_id = pos 527;
  shard_id = codes "shard-03";
  dest_shard_id = [];
  state = [];
  mapping_version = pos 0;
}

bucket_stored :
    get
      (pos 527)
      (apply_kv json empty (codes "/sharding/buckets/0527") (codes "shard-03") false).0.buckets
    ≡ some entry
unfolding apply_kv set_id bucket_id_from_key shard_id_from_key cut_prefix atoi put get
bucket_stored = refl

refused :
    (apply_kv json empty (codes "/sharding/shards/shard-01") (codes "not json") false).1
    ≡ some decode_shard
unfolding apply_kv shard_id_from_key cut_prefix
refused = refl

-- A prefix that ends in 0xff.
in_range-get_prefix_range_end_example :
    in_range (97 ∷ 255 ∷ []) (get_prefix_range_end (97 ∷ 255 ∷ [])) (97 ∷ 255 ∷ 1 ∷ [])
    ≡ has_prefix (97 ∷ 255 ∷ 1 ∷ []) (97 ∷ 255 ∷ [])
in_range-get_prefix_range_end_example =
    in_range-get_prefix_range_end (97 ∷ 255 ∷ []) (97 ∷ 255 ∷ 1 ∷ [])
      (omega arith, (omega arith, tt)) (omega arith, (omega arith, (omega arith, tt)))

all_ff : get_prefix_range_end (255 ∷ 255 ∷ []) ≡ 0 ∷ []
unfolding get_prefix_range_end
all_ff = refl

abbrev client : Client
client = record {
  endpoints = codes "http://etcd-01" ∷ codes "http://etcd-02" ∷ [];
  username = codes "router";
  password = codes "pw";
  token = [];
}

-- The first request is not answered, the others are.
abbrev first_down : Network
first_down = record {
  answer = λ n r. elim n [ zero ↦ failed | suc _ ↦ answered 200 (codes "{}") ];
  auth_body = λ u p. u ++ p;
  token_of = λ s. some s;
}

abbrev one_endpoint : Client
one_endpoint = record client { endpoints = codes "http://etcd-01" ∷ [] }

-- The token has expired; the authentication gives a new one.
abbrev expired : Network
expired = record first_down {
  answer = λ n r. elim n [ zero ↦ answered 401 [] | suc _ ↦ answered 200 (codes "t") ];
}

renewed :
    authenticate expired (one_endpoint, 1) ≡ ((record one_endpoint { token = codes "t" }, 2), ok tt)
unfolding authenticate bytes_beq
renewed = refl

by_test : {s t : Bytes} → bytes_beq s t ≡ false → s ≢ t
by_test {s} {t} h = ground (arith, bytes_beq_iff s t)

post_any_expired_token_example :
    (post_any expired (codes "/v3/kv/range") [] (one_endpoint, 0)).1 ≡ err no_endpoints
unfolding bytes_beq
post_any_expired_token_example =
    ap (λ r. r.1)
      (post_any_expired_token expired (codes "/v3/kv/range") [] one_endpoint
        (record one_endpoint { token = codes "t" }) (codes "http://etcd-01") 0 2 [] refl
        (by_test refl) (by_test refl) refl renewed)

-- One endpoint, whose answer 401 brings an authentication.
post_any-Spends_example :
    Spends 2 (one_endpoint, 0) (post_any expired (codes "/v3/kv/range") [] (one_endpoint, 0)).0
post_any-Spends_example = post_any-Spends expired (codes "/v3/kv/range") [] (one_endpoint, 0)
