-- ===== src/Breaker/Shards.antt =====
-- The breakers of different shards do not meet.
use pg_shard_router.Base.{
  List, [], ◌∷◌, ◌≡◌, refl, ◌∙◌, ap, arith, ◌==◌, if◌then◌else◌, Bool-cases, inl, inr,
}
use mathlib.Core.Option
use pg_shard_router.Base.Bytes.{Bytes, bytes_eq, bytes_beq_iff}
use pg_shard_router.Base.Dict.{Dict, get, get-put}
use pg_shard_router.Breaker.{Breaker, Registry, or_new, new, for_shard, update, snapshot}
use pg_shard_router.Breaker.Calls.{Call, step, run}

-- The breaker that `For` would return.
abbrev pub breaker_of : Bytes → Registry → Breaker
breaker_of id r = or_new (get id r.breakers)

pub breaker_of-update :
    (id j : Bytes) (f : Breaker → Breaker) (r : Registry)
    → breaker_of j (update id f r) ≡ (if id == j then f (breaker_of id r) else breaker_of j r)
unfolding update
breaker_of-update id j f r = ground (
  arith,
  get-put id j (f (breaker_of id r)) (for_shard id r).0.breakers,
  get-put id j new r.breakers,
  bytes_beq_iff id j,
)

-- Calls on the breakers of any shards, in the order in which they take place.
unfoldable pub run_all : Registry → List (Bytes × Call) → Registry
run_all r [] = r
run_all r ((id, c) ∷ cs) = run_all (update id (λ b. step b c) r) cs

-- Those among them on one shard's breaker.
unfoldable pub calls_on : Bytes → List (Bytes × Call) → List Call
calls_on j [] = []
calls_on j ((id, c) ∷ cs) = if id == j then c ∷ calls_on j cs else calls_on j cs

first_call :
    (j : Bytes) (r : Registry) (id : Bytes) (c : Call) (cs : List (Bytes × Call))
    → run (if id == j then step (breaker_of id r) c else breaker_of j r) (calls_on j cs)
      ≡ run (breaker_of j r) (calls_on j ((id, c) ∷ cs))
unfolding calls_on run
first_call j r id c cs = elim (Bool-cases (id == j)) [
  | inl same ↦
      rw same
        (ap (λ k. run (step (breaker_of k r) c) (calls_on j cs)) ((bytes_beq_iff id j).0 same))
  | inr apart ↦ rw apart
]

-- The registry is one independent breaker for each shard: after calls on any shards in any order,
-- the breaker of a shard is where its own calls alone bring it, from where it was, or from a new
-- one if it was not known.
breaker_of-run_all :
    (j : Bytes) (r : Registry) (cs : List (Bytes × Call))
    → breaker_of j (run_all r cs) ≡ run (breaker_of j r) (calls_on j cs)
unfolding run_all calls_on run
breaker_of-run_all j r [] = refl
breaker_of-run_all j r ((id, c) ∷ cs) =
    breaker_of-run_all j (update id (λ b. step b c) r) cs
    ∙ ap (λ b. run b (calls_on j cs)) (breaker_of-update id j (λ b. step b c) r)
    ∙ first_call j r id c cs

-- The snapshot that /metrics prints has the state of every known breaker, and no other.
pub get-snapshot :
    (id : Bytes) (bs : Dict Bytes Breaker)
    → get id (snapshot bs) ≡ Option.map (λ b. b.state) (get id bs)
unfolding get snapshot
get-snapshot id [] = refl
get-snapshot id ((j, b) ∷ bs) = ground (arith, get-snapshot id bs)
