-- ===== src/Startup/Main.antt =====
-- cmd/shard-router/main.go as a whole: `main` calls `run`, which starts (Startup), serves, and ends
-- (Startup/Shutdown). What the handlers and the pools' goroutine do with the pools meanwhile is a list of events.
pub mod Exits
mod Tests
use pg_shard_router.Base.{ℕ, Bool, true, false, Option, none, some, List, if◌then◌else◌, ◌&&◌}
use pg_shard_router.Base.Bytes.{Bytes}
use pg_shard_router.Base.Int.{ℤ, pos, int_leb}
use pg_shard_router.Base.Result.{Result, ok, err}
use pg_shard_router.Pool.Reaper as Reaper
use pg_shard_router.Pool.Reaper.{Event}
use pg_shard_router.Registry.Loops.{EtcdRegistry}
use pg_shard_router.Startup.{World, StartupError, Running, run}
use pg_shard_router.Startup.Shutdown.{Process, Ending, finish}

-- The exit code, or a panic.
pub data Exit : Type 0 where
  exits : ℕ → Exit
  crashed : Exit

-- Whether a registry has a context to cancel when its `Start` has succeeded.
abbrev pub context_of : Option (EtcdRegistry × ℕ × ℤ) → Option Bool
context_of none = none
context_of (some etcd) = some true

-- Whether `time.NewTicker` panics in the goroutine of `reconcileLoop`: it does where the interval is
-- not positive.
abbrev pub ticker_panics : Option (EtcdRegistry × ℕ × ℤ) → Bool
ticker_panics none = false
ticker_panics (some (reg, n, rev)) = int_leb reg.cfg.reconcile_interval (pos 0)

-- What `main` does with the error of `run`.
ended : Option (Process × Option Bytes) → Exit
ended none = crashed
ended (some (p, none)) = exits 0
ended (some (p, some e)) = exits 1

-- What follows in `run` once the server listens. A panic of a goroutine ends the process, unless `run` has
-- ended it before: `scheduled` is whether the goroutine of `reconcileLoop` comes to its first statement by then.
serves : Running → Bool → List Event → Ending → Exit
unfolding ended
serves u scheduled es e =
    if ticker_panics u.etcd && scheduled
    then crashed
    else elim (Reaper.run u.pool_config Reaper.started es) [
      | none ↦ crashed
      | some pools ↦
          ended (finish u.pool_config (record { pools = pools; cancel = context_of u.etcd }) e)
    ]

pub main : World → Bool → List Event → Ending → Exit
unfolding serves
main w scheduled es e = elim (run w) [ err _ ↦ exits 1 | ok u ↦ serves u scheduled es e ]
