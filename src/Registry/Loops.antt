-- ===== src/Registry/Loops.antt =====
-- The registry of internal/registry/etcd.go as it runs: `NewEtcdRegistry`, `Start`, the loop of
-- `watchLoop` around its watches, and the rounds of `reconcileLoop`. The goroutines' turns are
-- a list: a turn of the watch is one watch from its request to the end of its stream, a turn of
-- the reconciliation one load. Ending the context ends the list; the pauses are left out.
pub mod Received
pub mod Resumes
pub mod Compacted
pub mod Starts
pub mod Sample
mod Tests
use pg_shard_router.Base.{ℕ, suc, ◌*◌, Bool, true, false, List, [], ◌∷◌, ◌==◌, if◌then◌else◌}
use pg_shard_router.Base.Bytes.{Bytes, bytes_eq}
use pg_shard_router.Base.Int.{ℤ, pos, int_eq, inc_int}
use pg_shard_router.Base.Result.{Result, ok, err}
use pg_shard_router.Cache.{Store, new_store}
use pg_shard_router.Registry.Apply.{Json}
use pg_shard_router.Registry.Etcd.{load_all, consume}
use pg_shard_router.Registry.Gateway.{
  Wire, RangeError, WatchBatch, WatchError, Opening, range_prefix, watch_prefix,
}
use pg_shard_router.Registry.Http.{Client, Request, HttpError, Session, Network, authenticate}
use pg_shard_router.Registry.Keys.{prefix}

-- Durations are in nanoseconds.
pub record EtcdConfig : Type 0 where
  pub endpoints : List Bytes
  pub dial_timeout : ℤ
  pub username : Bytes
  pub password : Bytes
  pub reconcile_interval : ℤ

-- `running` is whether `Start` has set the cancel function.
pub record EtcdRegistry : Type 0 where
  pub client : Client
  pub store : Store
  pub cfg : EtcdConfig
  pub running : Bool

pub data StartError : Type 0 where
  endpoint_required : StartError
  not_authenticated : HttpError → StartError
  not_loaded : RangeError → StartError

new_etcd_client : EtcdConfig → Client
new_etcd_client cfg = record {
  endpoints = cfg.endpoints;
  username = cfg.username;
  password = cfg.password;
  token = [];
}

unfoldable pub new_etcd_registry : EtcdConfig → Result StartError EtcdRegistry
unfolding new_etcd_client
new_etcd_registry cfg = elim cfg.endpoints [
  | [] ↦ err endpoint_required
  | _ ∷ _ ↦ ok (record {
    client = new_etcd_client cfg;
    store = new_store;
    cfg =
        if cfg.reconcile_interval == pos 0
        then record cfg { reconcile_interval = pos (60 * 1_000_000_000) }
        else cfg;
    running = false;
  })
]

module _ (json : Json) (wire : Wire) (net : Network) where
  -- `loadAll` with its request.
  unfoldable pub reload : Session × Store → (Session × Store) × Result RangeError ℤ
  reload (s, store) =
      let (s', answer) = range_prefix wire net prefix s in
      let (store', result) = load_all json answer store in ((s', store'), result)

  -- The load of `Start`, and what it starts the watch with.
  unfoldable pub start_load : EtcdRegistry → ℕ → (EtcdRegistry × ℕ) × Result StartError ℤ
  unfolding reload
  start_load reg n =
      let ((s, store), result) = reload ((reg.client, n), reg.store) in
      elim result [
        | err e ↦ ((record reg { client = s.0; store = store }, s.1), err (not_loaded e))
        | ok rev ↦ ((record reg { client = s.0; store = store; running = true }, s.1), ok rev)
      ]

  -- `Start`: the revision that the watch loop is started with. The number is of requests so far.
  unfoldable pub start : EtcdRegistry → ℕ → (EtcdRegistry × ℕ) × Result StartError ℤ
  unfolding start_load
  start reg n =
      if reg.cfg.username == []
      then start_load reg n
      else let (s, result) = authenticate net (reg.client, n) in
        elim result [
          | err e ↦ ((record reg { client = s.0 }, s.1), err (not_authenticated e))
          | ok _ ↦ start_load (record reg { client = s.0 }) s.1
        ]

-- What the goroutines share and keep: the client with the number of its requests, the store, the
-- revision that the next watch starts from, and the number of watches so far.
pub record Loops : Type 0 where
  pub session : Session
  pub store : Store
  pub watch_rev : ℤ
  pub watches : ℕ

-- `watchLoop(ctx, fromRevision)`
abbrev pub loops_of : EtcdRegistry → ℕ → ℤ → Loops
loops_of reg n from_revision = record {
  session = (reg.client, n);
  store = reg.store;
  watch_rev = inc_int from_revision;
  watches = 0;
}

pub data Turn : Type 0 where
  watches reconciles : Turn

module _ (json : Json) (wire : Wire) (net : Network) (streams : ℕ → Request → Opening) where
  -- What a watch that was opened brings, and one that was not.
  unfoldable pub watched : Result WatchError (List WatchBatch) → Loops → Loops
  watched (err e) l = record l { watches = suc l.watches }
  watched (ok batches) l =
      let (store, rev) = consume json batches (l.store, l.watch_rev) in
      record l { store = store; watch_rev = rev; watches = suc l.watches }

  unfoldable pub watch_round : Loops → Loops
  unfolding watched
  watch_round l = watched (watch_prefix wire (streams l.watches) prefix l.watch_rev l.session.0) l

  unfoldable pub reconcile_round : Loops → Loops
  unfolding reload
  reconcile_round l =
      let ((s, store), result) = reload json wire net (l.session, l.store) in
      record l { session = s; store = store }

  unfoldable pub turns : List Turn → Loops → Loops
  unfolding watch_round reconcile_round
  turns [] l = l
  turns (watches ∷ ts) l = turns ts (watch_round l)
  turns (reconciles ∷ ts) l = turns ts (reconcile_round l)
