-- ===== src/Registry/Loops/Resumes.antt =====
-- The watches of the loop, one after the other: where the store and the next watch are after them.
use pg_shard_router.Base.{ℕ, zero, suc, List, [], ◌∷◌, ◌++◌, ◌≡◌, All}
use pg_shard_router.Base.Bytes.{Bytes}
use pg_shard_router.Base.Int.{ℤ, pos, inc_int}
use pg_shard_router.Base.Result.{ok}
use pg_shard_router.Cache.{Store}
use pg_shard_router.Registry.Apply.{Json}
use pg_shard_router.Registry.Etcd.{load_all}
use pg_shard_router.Registry.Etcd.Follows.{Keyspace}
use pg_shard_router.Registry.Etcd.Watch.{Follows}
use pg_shard_router.Registry.Gateway.{Wire, Opening, DecodedKv}
use pg_shard_router.Registry.Gateway.Stream.{Packet}
use pg_shard_router.Registry.Http.{Client, Request, Network}
use pg_shard_router.Registry.Loops.{Loops, Turn, watches}
use pg_shard_router.Registry.Loops.Received.{after_header, IsFine, Sends, watch_from, IsAt}

-- A number of watches.
abbrev pub rounds : ℕ → List Turn
rounds zero = []
rounds (suc n) = watches ∷ rounds n

-- The responses of `n` watches, of which the first is number `k` and starts from `start`: each of the others
-- starts after the last header that came before it. What a watch brings may depend on its number and its start.
abbrev pub received : (ℕ → ℤ → List Packet) → ℕ → ℕ → ℤ → List Packet
received got zero k start = []
received got (suc n) k start =
    got k start ++ received got n (suc k) (after_header (got k start) start)

module _ (json : Json) (name : ℤ → Bytes) (wire : Wire) (net : Network)
    (streams : ℕ → Request → Opening) (c : Client) (ep : Bytes) (eps : List Bytes)
    (first : c.endpoints ≡ ep ∷ eps) (got : ℕ → ℤ → List Packet)
    (sent : (k : ℕ) (start : ℤ) → Sends (got k start) (streams k (watch_from wire c ep start)))
    (fine : (k : ℕ) (start : ℤ) → All (IsFine json name) (got k start)) where
  -- The loops between two turns.
  record IsLooping (held : Keyspace) (k : ℕ) (next : ℤ) (l : Loops) : Type 0 where
    client : l.session.0 ≡ c
    number : l.watches ≡ k
    at : IsAt json name held next (l.store, l.watch_rev)

  module _ (kvs : List DecodedKv) (rev : ℕ) (store : Store) (n : ℕ) where
    -- After a load at revision `rev`, when `watchLoop` is started.
    abbrev pub started : Loops
    started = record {
      session = (c, n);
      store = (load_all json (ok (kvs, pos rev)) store).0;
      watch_rev = inc_int (pos rev);
      watches = 0;
    }
