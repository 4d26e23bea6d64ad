-- ===== src/Pool/Reaper.antt =====
-- The manager of internal/pool/manager.go with its goroutine: `NewManager` starts `reapLoop`, and `Close`
-- stops it by closing a channel. A tick that is due when the channel is closed may still be taken.
pub mod Created
pub mod Handed
mod Tests
use pg_shard_router.Base.{ℕ, Bool, true, false, Option, none, some, List, [], ◌∷◌, if◌then◌else◌}
use pg_shard_router.Base.Bytes.{Bytes}
use pg_shard_router.Base.Int.{ℤ, pos, negsuc}
use pg_shard_router.Pool.{
  Config, Manager, new_manager, find_pool, install, reap_once, close, reap_ttl,
}

-- `stopped`: the channel is closed; `reaping`: the goroutine has not returned.
pub record Running : Type 0 where
  pub manager : Manager
  pub stopped : Bool
  pub reaping : Bool

-- `NewManager`
abbrev pub started : Running
started = record { manager = new_manager; stopped = false; reaping = true }

-- A section of `poolFor`, a tick of the loop, its return, or a call of `Close`.
pub data Event : Type 0 where
  looks_up : Bytes → ℕ → Event
  installs : Bytes → ℕ → ℕ → Event
  ticks : ℕ → Event
  returns : Event
  shuts : Event

abbrev pub natural : ℤ → ℕ
natural (pos n) = n
natural (negsuc n) = 0

-- The nanoseconds that a pool may be idle. A time of 1 ns, whose half `time.NewTicker` panics on, is left out.
unfoldable pub ttl_of : Config → ℕ
ttl_of cfg = natural (reap_ttl cfg)

-- `Close` panics on a channel that is closed.
unfoldable pub step : Config → Running → Event → Option Running
unfolding ttl_of
step cfg s (looks_up key now) = some (record s { manager = (find_pool key now s.manager).0 })
step cfg s (installs key pool now) =
    some (record s { manager = (install key pool now s.manager).0 })
step cfg s (ticks now) =
    some (if s.reaping then record s { manager = reap_once (ttl_of cfg) now s.manager } else s)
step cfg s returns = some (if s.stopped then record s { reaping = false } else s)
step cfg s shuts =
    if s.stopped then none else some (record s { manager = close s.manager; stopped = true })

unfoldable pub run : Config → Running → List Event → Option Running
unfolding step
run cfg s [] = some s
run cfg s (e ∷ es) = elim (step cfg s e) [ none ↦ none | some s' ↦ run cfg s' es ]
