-- ===== src/Registry/Loops/Tests.antt =====
-- The theorems on starts and watches at concrete inputs.
use pg_shard_router.Base.{ℕ, false, [], ◌∷◌, ◌≡◌, refl}
use pg_shard_router.Base.Bytes.{codes}
use pg_shard_router.Base.Int.{pos}
use pg_shard_router.Base.Result.{ok}
use pg_shard_router.Cache.{new_store}
use pg_shard_router.Registry.Etcd.{load_all}
use pg_shard_router.Registry.Gateway.{Opening, opened}
use pg_shard_router.Registry.Http.{Request}
use pg_shard_router.Registry.Loops.{Loops, EtcdRegistry, start, watches, reconciles, turns}
use pg_shard_router.Registry.Loops.Starts.{Outcome, start-Outcome}
use pg_shard_router.Registry.Loops.Compacted.{IsCompacted, compacted_forever}
use pg_shard_router.Registry.Loops.Resumes.{started}
use pg_shard_router.Registry.Sample.{json, name, kvs}
use pg_shard_router.Registry.Loops.Sample.{
  got, streams, Sends-got, IsFine-got, wire, ack, cancel, client, net,
}

-- A server that refuses every watch.
abbrev compacted : ℕ → Request → Opening
compacted k r = opened 200 (ack ∷ cancel ∷ [])

IsCompacted-compacted : IsCompacted json wire net compacted (pos 12)
IsCompacted-compacted k url token = record {
  ack = ack;
  cancel = cancel;
  more = [];
  created = refl;
  not_created = refl;
  canceled = refl;
  opens = refl;
}

abbrev after_load : Loops
after_load = record {
  session = (client, 0);
  store = (load_all json (ok (kvs, pos 11)) new_store).0;
  watch_rev = pos 12;
  watches = 0;
}

compacted_forever_example :
    ((turns json wire net compacted (watches ∷ reconciles ∷ watches ∷ []) after_load).watch_rev
      ≡ pos 12)
    × ((turns json wire net compacted (watches ∷ reconciles ∷ watches ∷ []) after_load).store
        ≡ (turns json wire net compacted (reconciles ∷ []) after_load).store)
compacted_forever_example =
    compacted_forever json wire net compacted (watches ∷ reconciles ∷ watches ∷ []) (pos 12)
      after_load refl IsCompacted-compacted

abbrev loops : Loops
loops =
    started json name wire net streams client (codes "http://etcd-01") [] refl got Sends-got
      IsFine-got kvs 11 new_store 0

-- A registry with credentials that no endpoint of the network can check.
abbrev registry : EtcdRegistry
registry = record {
  client = record client { username = codes "router" };
  store = new_store;
  cfg = record {
    endpoints = codes "http://etcd-01" ∷ [];
    dial_timeout = pos 5_000_000_000;
    username = codes "router";
    password = [];
    reconcile_interval = pos 60_000_000_000;
  };
  running = false;
}

start-Outcome_example : let r = start json wire net registry 0 in Outcome json registry r.0.0 r.1
start-Outcome_example = start-Outcome json wire net registry 0
