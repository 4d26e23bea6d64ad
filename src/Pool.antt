-- ===== src/Pool.antt =====
-- internal/pool/manager.go: a pool of connections for each shard and endpoint. `poolFor` holds the
-- mutex twice and creates the pool in between, so it is given in its parts (`find_pool`, then
-- `install`), which other goroutines may come between. The driver's pools are known by number, and
-- the pools that were closed are listed in the state.
pub mod Ownership
pub mod Acquire
pub mod Reaper
mod Tests
use pg_shard_router.Base.{
  ℕ, ◌+◌, ◌*◌, Bool, true, false, Option, none, some, List, [], ◌∷◌, ◌++◌, ◌==◌, ltb, if◌then◌else◌,
}
use pg_shard_router.Base.Bytes.{Bytes, bytes_eq}
use pg_shard_router.Base.Dict.{Dict, get, put}
use pg_shard_router.Base.Int.{ℤ, pos, int_leb}
use pg_shard_router.Base.Result.{Result, ok, err}
use pg_shard_router.Breaker.{Breaker, Registry, allow, success, failure, for_shard, update}
use pg_shard_router.Model.{Endpoint, ShardDef, endpoint_string}

-- Durations are in nanoseconds.
pub record Config : Type 0 where
  pub max_conns : ℤ
  pub min_conns : ℤ
  pub max_conn_lifetime : ℤ
  pub max_conn_idle_time : ℤ
  pub idle_pool_ttl : ℤ

abbrev minutes : ℕ → ℤ
minutes n = pos (n * 60_000_000_000)

abbrev pub default_config : Config
default_config = record {
  max_conns = pos 10;
  min_conns = pos 0;
  max_conn_lifetime = minutes 30;
  max_conn_idle_time = minutes 5;
  idle_pool_ttl = minutes 10;
}

pub record Entry : Type 0 where
  pub pool : ℕ
  pub last_used : ℕ

-- `pools` by key, and what `Close` was called on, the latest first.
pub record Manager : Type 0 where
  pub pools : Dict Bytes Entry
  pub closed : List ℕ

abbrev pub new_manager : Manager
new_manager = record { pools = []; closed = [] }

unfoldable pub pool_key : Bytes → Endpoint → Bytes
pool_key shard_id ep = shard_id ++ (b'|' ∷ endpoint_string ep)

-- The first part of `poolFor`: the pool of a key that has one, used now.
unfoldable pub find_pool : Bytes → ℕ → Manager → Manager × Option ℕ
find_pool key now m = elim (get key m.pools) [
  | some e ↦ (record m { pools = put key (record e { last_used = now }) m.pools }, some e.pool)
  | none ↦ (m, none)
]

-- The last part: another goroutine may have made the pool of the key; the new one is closed then.
unfoldable pub install : Bytes → ℕ → ℕ → Manager → Manager × ℕ
install key new_pool now m = elim (get key m.pools) [
  | some e ↦ (record m { closed = new_pool ∷ m.closed }, e.pool)
  | none ↦
      (record m { pools = put key (record { pool = new_pool; last_used = now }) m.pools }, new_pool)
]

-- `now.Sub(e.lastUsed) > ttl`, without the subtraction.
abbrev pub is_idle : ℕ → ℕ → Entry → Bool
is_idle ttl now e = ltb (e.last_used + ttl) now

-- What the loop of `reapOnce` keeps, and what it collects to close.
unfoldable pub kept : ℕ → ℕ → Dict Bytes Entry → Dict Bytes Entry
kept ttl now [] = []
kept ttl now ((k, e) ∷ es) =
    let rest = kept ttl now es in if is_idle ttl now e then rest else (k, e) ∷ rest

unfoldable pub reaped : ℕ → ℕ → Dict Bytes Entry → List ℕ
reaped ttl now [] = []
reaped ttl now ((k, e) ∷ es) =
    let rest = reaped ttl now es in if is_idle ttl now e then e.pool ∷ rest else rest

unfoldable pub reap_once : ℕ → ℕ → Manager → Manager
unfolding kept reaped
reap_once ttl now m = record {
  pools = kept ttl now m.pools;
  closed = reaped ttl now m.pools ++ m.closed;
}

-- The pools of the entries.
abbrev pub pools_of : Dict Bytes Entry → List ℕ
pools_of [] = []
pools_of ((k, e) ∷ es) = e.pool ∷ pools_of es

-- `Close` of the manager.
unfoldable pub close : Manager → Manager
close m = record { pools = []; closed = pools_of m.pools ++ m.closed }

-- The time that a pool may be idle: 10 minutes if the configuration gives none.
unfoldable pub reap_ttl : Config → ℤ
reap_ttl cfg = if int_leb cfg.idle_pool_ttl (pos 0) then minutes 10 else cfg.idle_pool_ttl
