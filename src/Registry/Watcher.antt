-- ===== src/Registry/Watcher.antt =====
-- The two goroutines of a watch in single steps, with the context that stops them: `watchLoop` with
-- `sleepOrDone` in internal/registry/etcd.go, and the one that `watchPrefix` in etcdhttp.go starts for each
-- stream. They meet at the channel, which has no buffer. Of what is ready in a `select`, any may be taken.
pub mod Runs
pub mod Ends
pub mod Stages
pub mod Brings
mod Tests
use pg_shard_router.Base.{
  ℕ, suc, Bool, true, false, Option, none, some, List, [], ◌∷◌, nat_beq, if◌then◌else◌,
}
use pg_shard_router.Base.Base64.{encode}
use pg_shard_router.Base.Bytes.{Bytes, decimal_int}
use pg_shard_router.Base.Int.{ℤ, inc_int}
use pg_shard_router.Base.Result.{ok, err}
use pg_shard_router.Cache.{Store}
use pg_shard_router.Registry.Apply.{Json}
use pg_shard_router.Registry.Etcd.{apply_batch}
use pg_shard_router.Registry.Gateway.{
  Wire, WatchBatch, Message, Opening, unanswered, opened, batch_of, watch_path,
}
use pg_shard_router.Registry.Http.{Client, Request, pick_endpoint}
use pg_shard_router.Registry.Keys.{prefix}
use pg_shard_router.Registry.RangeEnd.{get_prefix_range_end}

-- Where `watchLoop` is: at the head of its loop, at the channel, in `sleepOrDone`, or gone.
pub data Place : Type 0 where
  checking waiting pausing returned : Place

-- Where the other goroutine is: before `Decode`, with the messages that the body still has; at its
-- `select`; or gone, with the channel closed.
pub data Reader : Type 0 where
  reading : List Message → Reader
  offering : WatchBatch → List Message → Reader
  gone : Reader

-- `done`: the context has been canceled.
pub record Watcher : Type 0 where
  pub done : Bool
  pub place : Place
  pub reader : Reader
  pub store : Store
  pub watch_rev : ℤ
  pub watches : ℕ

-- `watchLoop(ctx, fromRevision)`
abbrev pub watch_loop : Store → ℤ → Watcher
watch_loop store from_revision = record {
  done = false;
  place = checking;
  reader = gone;
  store = store;
  watch_rev = inc_int from_revision;
  watches = 0;
}

pub data Move : Type 0 where
  cancels checks decodes breaks_off hands_over drops sees_close wakes stops : Move

-- The messages of a response with status 200.
unfoldable pub accepted : Opening → Option (List Message)
accepted unanswered = none
accepted (opened status ms) = if nat_beq status 200 then some ms else none

module _ (json : Json) (wire : Wire) (c : Client) (streams : ℕ → Request → Opening) where
  -- `watchPrefix` up to the start of its goroutine.
  unfoldable pub open_watch : ℕ → ℤ → Option (List Message)
  unfolding accepted
  open_watch k start = elim (pick_endpoint c) [
    | err e ↦ none
    | ok url ↦ accepted (
        streams k (record {
          endpoint = url;
          path = watch_path;
          body =
              wire.watch_body (encode prefix) (encode (get_prefix_range_end prefix))
                (decimal_int start);
          token = c.token;
        }))
  ]

  pub begin : Option (List Message) → Watcher → Watcher
  begin none s = record s { place = pausing; watches = suc s.watches }
  begin (some ms) s = record s { place = waiting; reader = reading ms; watches = suc s.watches }

  -- `for batch := range batches`
  receive : WatchBatch → List Message → Watcher → Watcher
  receive b ms s =
      if b.canceled
      then record s { place = pausing; reader = gone }
      else let (store, rev) = apply_batch json b (s.store, s.watch_rev) in
        record s { reader = reading ms; store = store; watch_rev = rev }

  decode : Message → List Message → Watcher → Watcher
  decode m ms s = record s { reader = if m.created then reading ms else offering (batch_of m) ms }

  -- A move where it is possible.
  act : Move → Bool → Place → Reader → Watcher → Option Watcher
  unfolding begin receive decode
  act cancels false p r s = some (record s { done = true })
  act checks true checking r s = some (record s { place = returned })
  act checks false checking r s = some (begin (open_watch s.watches s.watch_rev) s)
  act decodes d p (reading (m ∷ ms)) s = some (decode m ms s)
  act breaks_off d p (reading ms) s = some (record s { reader = gone })
  act hands_over d waiting (offering b ms) s = some (receive b ms s)
  act drops true p (offering b ms) s = some (record s { reader = gone })
  act sees_close d waiting gone s = some (record s { place = pausing })
  act wakes d pausing r s = some (record s { place = checking })
  act stops true pausing r s = some (record s { place = returned })
  act mv d p r s = none

  unfoldable pub step : Watcher → Move → Option Watcher
  unfolding act
  step s mv = act mv s.done s.place s.reader s

  unfoldable pub run : Watcher → List Move → Option Watcher
  unfolding step
  run s [] = some s
  run s (mv ∷ mvs) = elim (step s mv) [ none ↦ none | some s' ↦ run s' mvs ]
