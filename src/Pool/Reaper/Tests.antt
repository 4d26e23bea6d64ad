-- ===== src/Pool/Reaper/Tests.antt =====
-- The theorem on pools that were handed out at a concrete input.
use mathlib.Core.HLevel.{⊥_prop}
use mathlib.Core.List.{Nodup, Nodup-cons, Pairwise, not-mem-nil, mem-cons}
use mathlib.Core.Logic.Or
use pg_shard_router.Base.{ℕ, some, List, [], ◌∷◌, ◌≡◌, refl, arith}
use pg_shard_router.Base.Bytes.{Bytes, codes, bytes_eq, bytes_beq}
use pg_shard_router.Base.Dict.{get}
use pg_shard_router.Base.Int.{pos}
use pg_shard_router.Pool.{Config, default_config, new_manager, find_pool, reap_ttl}
use pg_shard_router.Pool.Reaper.{
  Running, Event, looks_up, installs, ticks, returns, started, ttl_of,
}
use pg_shard_router.Pool.Reaper.Handed.{StaysOpen, find_pool-StaysOpen}

-- Pools may be idle for 100 nanoseconds.
abbrev cfg : Config
cfg = record default_config { idle_pool_ttl = pos 100 }

abbrev key : Bytes
key = codes "shard-01|db:5432/app"

-- The pool 7 was made at 100.
abbrev in_use : Running
in_use = record started {
  manager = record new_manager { pools = (key, record { pool = 7; last_used = 100 }) ∷ [] };
}

-- Another key is looked up, and the loop ticks 100 nanoseconds later.
abbrev quiet : List Event
quiet =
    looks_up (codes "shard-02|db:5432/app") 250
    ∷ installs (codes "shard-02|db:5432/app") 8 400
    ∷ ticks 300
    ∷ returns
    ∷ []

found : (find_pool key 200 in_use.manager).1 ≡ some 7
unfolding find_pool get bytes_beq
found = refl

-- The two pools are different.
fresh : Nodup {A = ℕ} (7 ∷ 8 ∷ [])
fresh = Nodup-cons.1 (
  λ m. Or.elim ⊥_prop (mem-cons.0 m) (λ (e : 7 ≡ 8). omega arith) not-mem-nil,
  Nodup-cons.1 (not-mem-nil, Pairwise.nil),
)

find_pool-StaysOpen_example :
    StaysOpen cfg key 7 (record in_use { manager = (find_pool key 200 in_use.manager).0 }) quiet
unfolding ttl_of reap_ttl
find_pool-StaysOpen_example =
    find_pool-StaysOpen cfg key 7 200 in_use quiet found
      (omega arith, (tt, (omega arith, (tt, tt)))) fresh
