-- ===== src/Api/Page/Tests.antt =====
-- The metrics page of a server with two shards.
use mathlib.Core.List.Permᴰ
use pg_shard_router.Api.{Server}
use pg_shard_router.Api.Page.{bytes_leb, handle_metrics, sorted_keys}
use pg_shard_router.Api.Page.Sorted.{AreVisits, handle_metrics-AreVisits}
use pg_shard_router.Base.{false, [], ◌∷◌, ◌++◌, ◌≡◌, refl, arith}
use pg_shard_router.Base.Bytes.{Bytes, codes, bytes_eq, bytes_beq, bytes_beq_iff}
use pg_shard_router.Base.Dict.{Dict, get}
use pg_shard_router.Base.Int.{ℤ, pos}
use pg_shard_router.Breaker
use pg_shard_router.Cache.{new_store}
use pg_shard_router.Pool.{new_manager}
use pg_shard_router.Router as Router

abbrev a : Bytes
a = codes "shard-01"

abbrev b : Bytes
b = codes "shard-02"

-- Two visits of the counters.
abbrev counts : Dict Bytes ℤ
counts = (a, pos 3) ∷ (b, pos 5) ∷ []

abbrev turned : Dict Bytes ℤ
turned = (b, pos 5) ∷ (a, pos 3) ∷ []

sorted : sorted_keys turned ≡ a ∷ b ∷ []
unfolding sorted_keys bytes_leb
sorted = refl

apart : bytes_beq a b ≡ false
unfolding bytes_beq
apart = refl

AreVisits-counts : AreVisits counts turned
unfolding get
AreVisits-counts = (
  Permᴰ.swap refl refl,
  λ k. ground (arith, apart, bytes_beq_iff a b, bytes_beq_iff a k, bytes_beq_iff b k),
)

abbrev server : Dict Bytes ℤ → Server
server requests = record {
  router = Router.new new_store (pos 1024);
  breakers = Breaker.new_registry;
  pool = new_manager;
  metrics = record { requests_by_shard = requests; routing_errors = pos 1 };
}

abbrev quote : Bytes → Bytes
quote s = codes "'" ++ s ++ codes "'"

handle_metrics-AreVisits_example :
    handle_metrics quote (server counts) ≡ handle_metrics quote (server turned)
handle_metrics-AreVisits_example =
    handle_metrics-AreVisits quote (server counts) (server turned) AreVisits-counts refl
      (Permᴰ.nil, λ k. refl)
