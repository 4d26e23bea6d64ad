-- ===== src/Breaker.antt =====
-- internal/breaker/breaker.go: the circuit breaker of a shard, and the breakers by shard. Each
-- method runs under the mutex of its breaker, so calls of several goroutines are a sequence. The
-- clock's reading is an argument, in nanoseconds.
pub mod Calls
pub mod Trips
pub mod Probes
pub mod Shards
mod Tests
use pg_shard_router.Base.{
  ℕ, ◌+◌, ◌*◌, Bool, Option, none, some, List, [], ◌∷◌, ◌||◌, ◌==◌, Eq, leb, if◌then◌else◌,
}
use pg_shard_router.Base.Bytes.{Bytes, codes, bytes_eq}
use pg_shard_router.Base.Dict.{Dict, get, put}
use pg_shard_router.Base.Int.{ℤ, pos, inc_int, int_leb}
use pg_shard_router.Base.Result.{Result, ok, err}

pub data State : Type 0 where
  closed open_ half_open : State

unfoldable pub state_string : State → Bytes
state_string open_ = codes "OPEN"
state_string half_open = codes "HALF_OPEN"
state_string closed = codes "CLOSED"

pub data BreakerError : Type 0 where
  err_open : BreakerError

pub record Breaker : Type 0 where
  pub state : State
  pub consecutive_fails : ℤ
  pub opened_at : ℕ
  pub failure_threshold : ℤ
  pub reset_timeout : ℕ

-- `New`: trips after 5 failures, probes again after 10 s.
abbrev pub new : Breaker
new = record {
  state = closed;
  consecutive_fails = pos 0;
  opened_at = 0;
  failure_threshold = pos 5;
  reset_timeout = 10 * 1_000_000_000;
}

-- `Allow`. `time.Since(b.openedAt) >= b.ResetTimeout` is written without the subtraction.
unfoldable pub allow : ℕ → Breaker → Breaker × Result BreakerError (Unit {0})
allow now b = elim b.state [
  | open_ ↦
      if leb (b.opened_at + b.reset_timeout) now
      then (record b { state = half_open }, ok tt)
      else (b, err err_open)
  | half_open ↦ (b, ok tt)
  | closed ↦ (b, ok tt)
]

unfoldable pub success : Breaker → Breaker
success b = record b { consecutive_fails = pos 0; state = closed }

abbrev is_half_open : State → Bool
is_half_open half_open = Bool.true
is_half_open open_ = Bool.false
is_half_open closed = Bool.false

unfoldable pub failure : ℕ → Breaker → Breaker
failure now b =
    let fails = inc_int b.consecutive_fails in
    if is_half_open b.state || int_leb b.failure_threshold fails
    then record b { consecutive_fails = fails; state = open_; opened_at = now }
    else record b { consecutive_fails = fails }

-- The `Registry`: a breaker for each shard that was asked for.
pub record Registry : Type 0 where
  pub breakers : Dict Bytes Breaker

abbrev pub new_registry : Registry
new_registry = record { breakers = [] }

abbrev pub or_new : Option Breaker → Breaker
or_new none = new
or_new (some b) = b

-- `For` returns a pointer into the map: here the map that holds the breaker, and the breaker.
unfoldable pub for_shard : Bytes → Registry → Registry × Breaker
for_shard id r = elim (get id r.breakers) [
  | some b ↦ (r, b)
  | none ↦ (record r { breakers = put id new r.breakers }, new)
]

-- What a method does to the breaker that `For` returned for `id`.
unfoldable pub update : Bytes → (Breaker → Breaker) → Registry → Registry
unfolding for_shard
update id f r = let (r', b) = for_shard id r in record r' { breakers = put id (f b) r'.breakers }

unfoldable pub snapshot : Dict Bytes Breaker → Dict Bytes State
snapshot [] = []
snapshot ((id, b) ∷ bs) = (id, b.state) ∷ snapshot bs
