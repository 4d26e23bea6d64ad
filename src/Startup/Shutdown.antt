-- ===== src/Startup/Shutdown.antt =====
-- cmd/shard-router/main.go: how `run` ends once it listens, and what its deferred calls release: `Close` of
-- internal/pool/manager.go, then `Close` of internal/registry/etcd.go or file.go.
pub mod Released
mod Tests
use pg_shard_router.Base.{Bool, true, false, Option, none, some, ◌≡◌}
use pg_shard_router.Base.Bytes.{Bytes}
use pg_shard_router.Pool
use pg_shard_router.Pool.Reaper as Reaper
use pg_shard_router.Pool.Reaper.{shuts}

-- What `ListenAndServe` has returned, if it has: `http.ErrServerClosed` or another error.
pub data Listening : Type 0 where
  serving : Listening
  server_closed : Listening
  failed : Bytes → Listening

-- What the goroutine has sent to `errCh`.
unfoldable pub sent : Listening → Option Bytes
sent serving = none
sent server_closed = none
sent (failed e) = some e

-- The branch that `select` takes, with what `Shutdown` returns in the first.
pub data Ending : Type 0 where
  signalled : Option Bytes → Ending
  listen_failed : Bytes → Ending

-- Either branch may be taken when it is ready.
abbrev pub IsReady : Bool → Listening → Ending → Type 0
IsReady interrupted l (signalled shutdown) = interrupted ≡ true
IsReady interrupted l (listen_failed e) = sent l ≡ some e

-- The error that `run` returns.
unfoldable pub returned : Ending → Option Bytes
returned (signalled shutdown) = shutdown
returned (listen_failed e) = some e

-- `cancel`: whether the context of the registry's loops is live; a file registry has none.
pub record Process : Type 0 where
  pub pools : Reaper.Running
  pub cancel : Option Bool

-- `Close` of either registry.
unfoldable pub close_registry : Option Bool → Option Bool
close_registry none = none
close_registry (some live) = some false

-- The deferred calls, the last one first.
unfoldable pub finish : Pool.Config → Process → Ending → Option (Process × Option Bytes)
unfolding close_registry returned
finish cfg p e = elim (Reaper.step cfg p.pools shuts) [
  | none ↦ none
  | some closed ↦ some (record { pools = closed; cancel = close_registry p.cancel }, returned e)
]
