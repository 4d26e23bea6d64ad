-- ===== src/Registry/Interface.antt =====
-- internal/registry/registry.go: what the service asks of a registry, whichever it is.
use pg_shard_router.Base.{Bool, true, false, ◌≡◌}
use pg_shard_router.Base.Result.{Result, ok, err}
use pg_shard_router.Cache.{Store, ready}

-- `S` is what a registry keeps, and `E` the errors of its `Start`. `syncing` is whether goroutines of
-- its own go on to change the store. What the comments of the source promise is in the last four fields.
pub record Registry (S E : Type 0) : Type 0 where
  pub start : S → S × Result E (Unit {0})
  pub store : S → Store
  pub close : S → S
  pub syncing : S → Bool
  pub start_loads : (s : S) → (start s).1 ≡ ok tt → ready (store (start s).0) ≡ true
  pub start_fails :
      (s : S) (e : E)
      → (start s).1 ≡ err e
      → (store (start s).0 ≡ store s) × (syncing (start s).0 ≡ syncing s)
  pub close_keeps : (s : S) → store (close s) ≡ store s
  pub close_stops : (s : S) → syncing (close s) ≡ false
