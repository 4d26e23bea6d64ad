-- ===== src/Startup/Main/Exits.antt =====
-- How the process exits.
use pg_shard_router.Base.{Bool, true, ◌&&◌, false, none, List, ◌≡◌, ◌↔◌}
use pg_shard_router.Base.Bytes.{Bytes}
use pg_shard_router.Base.Result.{Result, ok}
use pg_shard_router.Pool.Reaper.{Event}
use pg_shard_router.Startup.{World, StartupError, Running}
use pg_shard_router.Startup.Main.{Exit, exits, crashed, ticker_panics}
use pg_shard_router.Startup.Shutdown.{Listening, Ending, returned}

module _ (w : World) (scheduled : Bool) (es : List Event) (interrupted : Bool) (l : Listening)
    (e : Ending) where
  -- How the process ends, for an end of `run`.
  abbrev Ends : Result StartupError Running → Exit → Type 0
  Ends r x =
      ((x ≡ crashed) ↔ ((u : Running) × (r ≡ ok u) × (ticker_panics u.etcd && scheduled ≡ true)))
      × ((x ≡ exits 0) ↔ (
          (u : Running) × (r ≡ ok u)
          × (ticker_panics u.etcd && scheduled ≡ false)
          × (returned e ≡ none)
          × (interrupted ≡ true)))
