-- ===== src/Startup/Main/Tests.antt =====
-- A whole life of the process at a concrete input.
use pg_shard_router.Base.{none, List, [], ◌∷◌}
use pg_shard_router.Base.Bytes.{codes}
use pg_shard_router.Pool.Reaper.{Event, looks_up, installs, ticks}
use pg_shard_router.Startup.Shutdown.{Ending, signalled}

-- Two requests race for a pool, and the loop ticks.
abbrev served : List Event
served =
    looks_up (codes "s|db:5432/app") 1
    ∷ installs (codes "s|db:5432/app") 7 3
    ∷ installs (codes "s|db:5432/app") 8 4
    ∷ ticks 20
    ∷ []

-- A signal comes, and every request ends in time.
abbrev quiet : Ending
quiet = signalled none
