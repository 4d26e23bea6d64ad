-- ===== src/Breaker/Tests.antt =====
-- The theorems on breakers at concrete inputs.

use pg_shard_router.Base.{◌≡◌, refl, arith, All, List, [], ◌∷◌, ◌++◌}
use pg_shard_router.Base.Bytes.{Bytes, codes, bytes_eq}
use pg_shard_router.Base.Int.{pos}
use pg_shard_router.Base.Result.{ok}
use pg_shard_router.Breaker.{Breaker, open_, new}
use pg_shard_router.Breaker.Calls.{Call, allows, fails, run}
use pg_shard_router.Breaker.Trips.{Failures, none_yet, asked, failed, trips_at_threshold}
use pg_shard_router.Breaker.Probes.{answers, half_open_admits_every}

abbrev four : List Call
four = fails 1 ∷ fails 2 ∷ allows 3 ∷ fails 4 ∷ fails 5 ∷ []

four-Failures : Failures four 4
four-Failures = failed 1 (failed 2 (asked 3 (failed 4 (failed 5 none_yet))))

trips_at_threshold_example : (run new (four ++ fails 6 ∷ [])).state ≡ open_
trips_at_threshold_example =
    (trips_at_threshold new 4 5 6 four-Failures refl refl refl (omega arith) (omega arith)).2

abbrev tripped : Breaker
tripped = record new { state = open_; consecutive_fails = pos 5; opened_at = 6 }

-- Three probes at once, where the comment promises a single one.
half_open_admits_every_example :
    All (λ r. r ≡ ok tt) (answers tripped (10000000006 ∷ 10000000007 ∷ 10000000008 ∷ []))
half_open_admits_every_example =
    (half_open_admits_every tripped 10000000006 (10000000007 ∷ 10000000008 ∷ []) refl
      (omega arith)).0

abbrev a : Bytes
a = codes "shard-01"

abbrev b : Bytes
b = codes "shard-05"
