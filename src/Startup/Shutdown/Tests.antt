-- ===== src/Startup/Shutdown/Tests.antt =====
-- The end of the process at a concrete input.
use pg_shard_router.Base.{true, none, some, List, [], ◌∷◌, refl}
use pg_shard_router.Base.Bytes.{codes}
use pg_shard_router.Pool.{default_config}
use pg_shard_router.Pool.Reaper.{Event, looks_up, installs, ticks}
use pg_shard_router.Startup.Shutdown.{signalled, serving}
use pg_shard_router.Startup.Shutdown.Released.{Released, finish-Released}

-- Two requests race for a pool, and the loop ticks.
abbrev served : List Event
served =
    looks_up (codes "s|db:5432/app") 1
    ∷ installs (codes "s|db:5432/app") 7 3
    ∷ installs (codes "s|db:5432/app") 8 4
    ∷ ticks 20
    ∷ []

finish-Released_example : Released default_config served (some true) true (signalled none)
finish-Released_example =
    finish-Released default_config served (some true) true serving (signalled none)
      (tt, (tt, (tt, (tt, tt)))) refl
