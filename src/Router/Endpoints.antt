-- ===== src/Router/Endpoints.antt =====
-- Which endpoint serves a read.
use pg_shard_router.Base.{none, some, ◌≡◌, ◌≢◌, refl, arith}
use pg_shard_router.Base.Bytes.{Bytes, bytes_eq, bytes_beq, bytes_beq_iff}
use pg_shard_router.Model.{
  Endpoint, parse_read_consistency, read_strong, read_your_writes, read_eventual,
}
use pg_shard_router.Router.{Resolved, read_endpoint}

parse_eventual : parse_read_consistency read_eventual ≡ read_eventual
unfolding parse_read_consistency bytes_beq
parse_eventual = refl

parse_other : (s : Bytes) → s ≢ read_eventual → parse_read_consistency s ≢ read_eventual
unfolding parse_read_consistency
parse_other s ne e = ground (arith, bytes_beq_iff s read_eventual, strong_ne, your_writes_ne)
  where
    strong_ne : read_strong ≢ read_eventual
    strong_ne h = cc

    your_writes_ne : read_your_writes ≢ read_eventual
    your_writes_ne h = cc

read_eventual_endpoint :
    (r : Resolved)
    → read_endpoint read_eventual r
      ≡ elim r.read_shard.reader [ some reader ↦ reader | none ↦ r.read_shard.writer ]
unfolding read_endpoint bytes_beq
read_eventual_endpoint r = refl

other_endpoint :
    (c : Bytes) (r : Resolved) → c ≢ read_eventual → read_endpoint c r ≡ r.read_shard.writer
unfolding read_endpoint
other_endpoint c r ne = ground (arith, bytes_beq_iff c read_eventual)

-- The text of the request decides: `EVENTUAL` reads from the reader of the shard where it has one,
-- and every other text, empty, unknown or `READ_YOUR_WRITES`, reads from the writer.
read_endpoint-parse :
    (s : Bytes) (r : Resolved)
    → (s ≡ read_eventual
        → (r.read_shard.reader ≡ none
            → read_endpoint (parse_read_consistency s) r ≡ r.read_shard.writer)
          × ((e : Endpoint)
              → r.read_shard.reader ≡ some e
              → read_endpoint (parse_read_consistency s) r ≡ e))
      × (s ≢ read_eventual → read_endpoint (parse_read_consistency s) r ≡ r.read_shard.writer)
read_endpoint-parse s r = (
  λ e.
      rw (e, parse_eventual)
        (λ n. rw (read_eventual_endpoint, n), λ x h. rw (read_eventual_endpoint, h)),
  λ ne. other_endpoint (parse_read_consistency s) r (parse_other s ne),
)
