-- ===== src/Api/Routes.antt =====
-- What /v1/route reports.
use pg_shard_router.Api.{
  Server, Response, RouteResponse, routed, replied, write_router_error, route_response,
  handle_route,
}
use pg_shard_router.Base.{
  Option, none, some, List, [], map, All, ◌≡◌, ◌≢◌, ◌↔◌, refl, arith, inl, inr, ap, sym, ◌∙◌,
}
use pg_shard_router.Base.Bytes.{Bytes, bytes_eq, bytes_beq_iff}
use pg_shard_router.Base.Dict.{get}
use pg_shard_router.Base.Int.{ℤ, int_eq}
use pg_shard_router.Base.Result.{ok, err, Result-cases}
use pg_shard_router.Cache.{Mapping, load}
use pg_shard_router.Hashing.{text, bucket_for}
use pg_shard_router.Model.{Endpoint, endpoint_string, ShardDef, BucketDef}
use pg_shard_router.Router.{
  Resolved, RouteError, resolve, no_mapping, shard_unavailable, unknown_bucket, unknown_shard,
}
use pg_shard_router.Router.Refines.{resolve-eq-ok}
use pg_shard_router.Router.Spec.{Answers, Row, IsActive}

write_router_error-ne :
    (e : RouteError) (resp : RouteResponse) → write_router_error e ≢ replied 200 (routed resp)
unfolding write_router_error
write_router_error-ne no_mapping resp x = ground (arith, x)
write_router_error-ne (shard_unavailable id) resp x = ground (arith, x)
write_router_error-ne (unknown_bucket i) resp x = ground (arith, x)
write_router_error-ne (unknown_shard id i) resp x = ground (arith, x)

handle_route-ok :
    (key : Bytes) (s : Server) (res : Resolved)
    → key ≢ []
    → resolve (text key) s.router ≡ ok res
    → (handle_route key s).1 ≡ replied 200 (routed (route_response res))
unfolding handle_route
handle_route-ok key s res named h = ground (arith, named, bytes_beq_iff key [], h)

handle_route-err :
    (key : Bytes) (s : Server) (e : RouteError)
    → key ≢ []
    → resolve (text key) s.router ≡ err e
    → (handle_route key s).1 ≡ write_router_error e
unfolding handle_route
handle_route-err key s e named h = ground (arith, named, bytes_beq_iff key [], h)

routed_eq :
    (a b : RouteResponse)
    → ◌≡◌ {A = Response} (replied 200 (routed a)) (replied 200 (routed b))
    → a ≡ b
routed_eq a b e = cc

response_eq :
    (a b : RouteResponse)
    → a.bucket_id ≡ b.bucket_id
    → a.read_shard_id ≡ b.read_shard_id
    → a.write_shard_ids ≡ b.write_shard_ids
    → a.migration_state ≡ b.migration_state
    → a.writer_endpoint ≡ b.writer_endpoint
    → a.reader_endpoint ≡ b.reader_endpoint
    → a ≡ b
response_eq a b p q r s t u = λ k. record {
  bucket_id = p k;
  read_shard_id = q k;
  write_shard_ids = r k;
  migration_state = s k;
  writer_endpoint = t k;
  reader_endpoint = u k;
}

-- The text of a reader endpoint, empty where the shard has none.
abbrev pub reader_text : Option Endpoint → Bytes
reader_text none = []
reader_text (some ep) = endpoint_string ep

-- What a report on bucket `i` tells, by the map alone: the shards are those of the row of the migration table, all
-- active, and named by their identifiers in the order of the writes, and the endpoints are those of
-- the shard that serves the reads.
pub record Reports (m : Mapping) (i : ℤ) (b : BucketDef) (resp : RouteResponse) : Type 0 where
  pub source : ShardDef
  pub read : ShardDef
  pub writes : List ShardDef
  pub source_known : get b.shard_id m.shards ≡ some source
  pub row : Row m b source read writes
  pub reads_active : IsActive read
  pub writes_active : All IsActive writes
  pub bucket : resp.bucket_id ≡ i
  pub state : resp.migration_state ≡ b.state
  pub read_named : resp.read_shard_id ≡ read.shard_id
  pub writes_named : resp.write_shard_ids ≡ map (λ (w : ShardDef). w.shard_id) writes
  pub writer_told : resp.writer_endpoint ≡ endpoint_string read.writer
  pub reader_told : resp.reader_endpoint ≡ reader_text read.reader

reader_of :
    (o : Option Endpoint) → (elim o [ none ↦ [] | some ep ↦ endpoint_string ep ]) ≡ reader_text o
reader_of none = refl
reader_of (some ep) = refl

module _ (m : Mapping) (i : ℤ) (b : BucketDef) (resp : RouteResponse) where
  Answers-Reports :
      (res : Resolved) → Answers m i b res → route_response res ≡ resp → Reports m i b resp
  unfolding route_response
  Answers-Reports res a e = record {
    source = a.source;
    read = res.read_shard;
    writes = res.write_shards;
    source_known = a.source_known;
    row = a.row;
    reads_active = a.reads_active;
    writes_active = a.writes_active;
    bucket = ap (λ (r : RouteResponse). r.bucket_id) (sym e) ∙ a.id;
    state = ap (λ (r : RouteResponse). r.migration_state) (sym e) ∙ a.state;
    read_named = ap (λ (r : RouteResponse). r.read_shard_id) (sym e);
    writes_named = ap (λ (r : RouteResponse). r.write_shard_ids) (sym e);
    writer_told = ap (λ (r : RouteResponse). r.writer_endpoint) (sym e);
    reader_told =
        ap (λ (r : RouteResponse). r.reader_endpoint) (sym e) ∙ reader_of res.read_shard.reader;
  }

  answer_of : Reports m i b resp → Resolved
  answer_of p = record {
    bucket_id = i;
    read_shard = p.read;
    write_shards = p.writes;
    migration_state = b.state;
  }

  Reports-Answers : (p : Reports m i b resp) → Answers m i b (answer_of p)
  unfolding answer_of
  Reports-Answers p = record {
    source = p.source;
    source_known = p.source_known;
    row = p.row;
    reads_active = p.reads_active;
    writes_active = p.writes_active;
    id = refl;
    state = refl;
  }

  Reports-response : (p : Reports m i b resp) → route_response (answer_of p) ≡ resp
  unfolding answer_of route_response
  Reports-response p =
      response_eq _ resp (sym p.bucket) (sym p.read_named) (sym p.writes_named) (sym p.state)
        (sym p.writer_told) (sym (reader_of p.read.reader) ∙ sym p.reader_told)

-- For a key that is not empty, with a map loaded and the bucket of the key assigned, the answer has status 200 and
-- a report exactly where the migration table has a row for the bucket with active shards, and the report then has the
-- bucket, its state, the identifiers of the row's shards, and the endpoints of the shard that serves the reads.
pub handle_route-Answers :
    (key : Bytes) (s : Server) {m : Mapping} {b : BucketDef}
    → key ≢ []
    → load s.router.store ≡ some m
    → get (bucket_for (text key) s.router.bucket_count) m.buckets ≡ some b
    → (resp : RouteResponse)
    → ((handle_route key s).1 ≡ replied 200 (routed resp))
      ↔ Reports m (bucket_for (text key) s.router.bucket_count) b resp
handle_route-Answers key s {m} {b} named loaded assigned resp =
    let i = bucket_for (text key) s.router.bucket_count in
    (
      λ h. elim (Result-cases (resolve (text key) s.router)) [
        | inl (res, e) ↦
            Answers-Reports m i b resp res
              ((resolve-eq-ok (text key) s.router loaded assigned res).0 e)
              (routed_eq _ resp (sym (handle_route-ok key s res named e) ∙ h))
        | inr (e, failed) ↦
            absurd (write_router_error-ne e resp (sym (handle_route-err key s e named failed) ∙ h))
      ],
      λ p.
          handle_route-ok key s (answer_of m i b resp p) named (
            (resolve-eq-ok (text key) s.router loaded assigned (answer_of m i b resp p)).1
              (Reports-Answers m i b resp p))
          ∙ ap (λ (r : RouteResponse). replied 200 (routed r)) (Reports-response m i b resp p),
    )
