-- ===== src/Registry/Watcher/Tests.antt =====
-- The single steps of a watch at concrete inputs: the server of the tests of Loops.
use pg_shard_router.Base.{true, some, List, [], ◌∷◌, ◌++◌, ◌≡◌, ◌⊎◌, ◌+◌, ◌≤◌, refl, length}
use pg_shard_router.Base.Bytes.{bytes_eq, bytes_beq, codes, decimal_int, cut_prefix}
use pg_shard_router.Base.Int.{pos}
use pg_shard_router.Base.Result.{ok}
use pg_shard_router.Base.Strconv.{read_onto, atoi}
use pg_shard_router.Cache.{new_store, swap, load}
use pg_shard_router.Registry.Etcd.{consume, apply_batch}
use pg_shard_router.Registry.Gateway.{Message, stream_batches, watch_prefix, batch_of}
use pg_shard_router.Registry.Gateway.Stream.{as_message}
use pg_shard_router.Registry.Http.{pick_endpoint}
use pg_shard_router.Registry.Keys.{prefix, shard_id_from_key, bucket_id_from_key}
use pg_shard_router.Registry.Loops.Sample.{moved, ack, cancel, wire, client, streams}
use pg_shard_router.Registry.Sample.{json}
use pg_shard_router.Base.Sscanf.{sscanf_int}
use pg_shard_router.Base.Spaces.{space_length}
use pg_shard_router.Registry.Apply.{apply_kv, set_id}
use pg_shard_router.Base.Base64.{decode, encode}
use pg_shard_router.Base.Dict.{put}
use pg_shard_router.Registry.Watcher.{
  Watcher, waiting, returned, reading, gone, watch_loop, Move, cancels, checks, decodes, breaks_off,
  hands_over, drops, sees_close, wakes, stops, open_watch, accepted, run,
}
use pg_shard_router.Registry.Watcher.Brings.{run-consume}
use pg_shard_router.Registry.Watcher.Ends.{left, IsOver, CanGo, cancel_ends}

-- The first stream: an acknowledgement, one change, and a cancelation.
abbrev first : List Message
first = ack ∷ as_message moved ∷ cancel ∷ []

abbrev loop : Watcher
loop = watch_loop new_store (pos 11)

opens : open_watch json wire client streams 0 (pos 12) ≡ some first
unfolding open_watch accepted pick_endpoint decimal_int read_onto
opens = refl

-- The acknowledgement is passed over, the change is received, and the context ends at the cancelation.
abbrev moves : List Move
moves = decodes ∷ decodes ∷ hands_over ∷ decodes ∷ cancels ∷ drops ∷ sees_close ∷ stops ∷ []

-- Bucket 7 has moved.
abbrev after : Watcher
after = record {
  done = true;
  place = returned;
  reader = gone;
  store = record {
    ptr = some (record {
      revision = pos 14;
      shards = [];
      buckets =
          (
            pos 7,
            record {
              bucket_id = pos 7;
              shard_id = codes "shard-05";
              dest_shard_id = [];
              state = [];
              mapping_version = pos 0;
            },
          )
          ∷ [];
    });
  };
  watch_rev = pos 15;
  watches = 1;
}

ran : run json wire client streams loop (checks ∷ moves) ≡ some after
unfolding run open_watch accepted pick_endpoint decimal_int read_onto bytes_beq new_store batch_of
    apply_batch sscanf_int space_length atoi swap apply_kv shard_id_from_key cut_prefix decode
    encode bucket_id_from_key load put set_id
ran = refl

run-consume_example :
    (watch_prefix wire (streams 0) prefix (pos 12) client ≡ ok (stream_batches first))
    × ((taken : List Message) × (rest : List Message) × (first ≡ taken ++ rest)
        × ((after.store, after.watch_rev)
            ≡ consume json (stream_batches taken) (loop.store, loop.watch_rev)))
run-consume_example =
    run-consume json wire client streams first moves loop after refl refl opens
      (λ e. cc, (λ e. cc, (λ e. cc, (λ e. cc, (λ e. cc, (λ e. cc, (λ e. cc, (λ e. cc, tt)))))))) ran

-- The context ends when the stream has been opened.
abbrev at_cancel : Watcher
at_cancel = record loop { done = true; place = waiting; reader = reading first; watches = 1 }

abbrev last_moves : List Move
last_moves = decodes ∷ breaks_off ∷ sees_close ∷ wakes ∷ checks ∷ []

abbrev last : Watcher
last = record loop { done = true; place = returned; reader = gone; watches = 1 }

stopped : run json wire client streams at_cancel last_moves ≡ some last
unfolding run
stopped = refl

cancel_ends_example :
    (last.watches ≡ at_cancel.watches)
    × (length last_moves + left last ≤ left at_cancel)
    × (IsOver last ⊎ CanGo json wire client streams last)
cancel_ends_example = cancel_ends json wire client streams last_moves at_cancel last refl stopped
