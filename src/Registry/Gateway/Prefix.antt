-- ===== src/Registry/Gateway/Prefix.antt =====
-- What a range request for a prefix brings.
use pg_shard_router.Base.{
  ℕ, suc, ◌≤◌, ◌<◌, Bool, some, List, [], ◌∷◌, ◌≡◌, refl, ap, All, map, if◌then◌else◌, Bool-cases,
  inl, inr,
}
use pg_shard_router.Base.Base64.{encode, decode-encode}
use pg_shard_router.Base.Bytes.{Bytes, decimal}
use pg_shard_router.Base.Int.{pos, max_int}
use pg_shard_router.Base.Result.{ok}
use pg_shard_router.Base.Sscanf.{sscanf_int-decimal_end}
use pg_shard_router.Registry.Gateway.{
  Kv, RangeResponse, DecodedKv, Wire, range_path, decode_kvs, read_response, range_prefix,
}
use pg_shard_router.Registry.Http.{Client, Network, answered}
use pg_shard_router.Registry.Http.Failover.{post_any-failover}
use pg_shard_router.Registry.RangeEnd.{get_prefix_range_end}
use pg_shard_router.Registry.RangeEnd.Selects.{in_range, has_prefix, in_range-get_prefix_range_end}

abbrev pub AreBytes : Bytes → Type 0
AreBytes = All (λ b. b < 256)

abbrev pub IsBinary : DecodedKv → Type 0
IsBinary kv = AreBytes kv.key × AreBytes kv.value

-- What etcd holds that passes a test on keys, in its order.
abbrev pub select : (Bytes → Bool) → List DecodedKv → List DecodedKv
select test [] = []
select test (kv ∷ db) = let rest = select test db in if test kv.key then kv ∷ rest else rest

-- A pair as the gateway sends it.
abbrev pub as_kv : DecodedKv → Kv
as_kv kv = record { key = encode kv.key; value = encode kv.value }

-- What the gateway answers to a range request, at a revision.
abbrev pub range_reply : ℕ → List DecodedKv → Bytes → Bytes → RangeResponse
range_reply rev db key range_end = record {
  revision = decimal rev;
  kvs = map as_kv (select (in_range key range_end) db);
}

decode_kvs-as_kv : (kvs : List DecodedKv) → All IsBinary kvs → decode_kvs (map as_kv kvs) ≡ ok kvs
unfolding decode_kvs
decode_kvs-as_kv [] h = refl
decode_kvs-as_kv (kv ∷ kvs) h =
    rw (decode-encode kv.key h.0.0, decode-encode kv.value h.0.1, decode_kvs-as_kv kvs h.1)

select-same :
    (p q : Bytes → Bool) (db : List DecodedKv)
    → All IsBinary db
    → ((k : Bytes) → AreBytes k → p k ≡ q k)
    → (select p db ≡ select q db) × All IsBinary (select q db)
select-same p q [] h same = (refl, tt)
select-same p q (kv ∷ db) h same =
    let (rest, binary) = select-same p q db h.1 same in
    elim (Bool-cases (q kv.key)) [
      | inl e ↦ rw (same kv.key h.0.0, e) (ap (λ l. kv ∷ l) rest, (h.0, binary))
      | inr e ↦ rw (same kv.key h.0.0, e) (rest, binary)
    ]

read_response-range_reply :
    (rev : ℕ) (db : List DecodedKv) (prefix : Bytes)
    → rev ≤ max_int
    → AreBytes prefix
    → All IsBinary db
    → read_response (some (range_reply rev db prefix (get_prefix_range_end prefix)))
      ≡ ok (select (λ k. has_prefix k prefix) db, pos rev)
unfolding read_response
read_response-range_reply rev db prefix h b d =
    let (same, binary) =
      select-same (in_range prefix (get_prefix_range_end prefix)) (λ k. has_prefix k prefix) db d
        (λ k bytes. in_range-get_prefix_range_end prefix k b bytes) in
    rw (same, decode_kvs-as_kv _ binary, sscanf_int-decimal_end rev h)

module _ (wire : Wire) (net : Network) where
  -- Against a gateway that answers the request with the pairs in the range asked for and its
  -- revision, a range request for a prefix of bytes brings exactly the pairs whose keys have the
  -- prefix, in etcd's order and decoded, with the revision, after one request to the first endpoint
  -- and with the client unchanged.
  pub range_prefix-eq-ok :
      (rev : ℕ) (db : List DecodedKv) (prefix : Bytes) (c : Client) (ep : Bytes) (rest : List Bytes)
      (n : ℕ) (raw : Bytes)
      → rev ≤ max_int
      → AreBytes prefix
      → All IsBinary db
      → c.endpoints ≡ ep ∷ rest
      → net.answer n (record {
        endpoint = ep;
        path = range_path;
        body = wire.range_body (encode prefix) (encode (get_prefix_range_end prefix));
        token = c.token;
      })
        ≡ answered 200 raw
      → wire.range_response raw ≡ some (range_reply rev db prefix (get_prefix_range_end prefix))
      → range_prefix wire net prefix (c, n)
        ≡ ((c, suc n), ok (select (λ k. has_prefix k prefix) db, pos rev))
  unfolding range_prefix
  range_prefix-eq-ok rev db prefix c ep rest n raw small bytes binary e answer reply =
      rw (post_any-failover net range_path _ c [] ep rest n raw e tt answer, reply)
        (ap (λ r. ((c, suc n), r)) (read_response-range_reply rev db prefix small bytes binary))
