-- ===== src/Registry/Loops/Received.antt =====
-- What the streams of watches bring: responses that pack events in whatever way, under whatever revisions.
use mathlib.Core.List.{append_assoc}
use pg_shard_router.Base.{
  ℕ, ◌<◌, true, false, List, [], ◌∷◌, ◌++◌, ◌≡◌, refl, sym, ap, ◌∙◌, arith, All, map, nat_beq,
}
use pg_shard_router.Base.Base64.{encode}
use pg_shard_router.Base.Bytes.{Bytes, decimal_int}
use pg_shard_router.Base.Int.{ℤ, pos, inc_int}
use pg_shard_router.Base.Result.{ok}
use pg_shard_router.Cache.{Store}
use pg_shard_router.Registry.Apply.{Json}
use pg_shard_router.Registry.Etcd.{apply_batch, consume}
use pg_shard_router.Registry.Etcd.Follows.{Keyspace, IsWellFormed}
use pg_shard_router.Registry.Etcd.Watch.{
  all_happened, all_happened-append, Follows, apply_batch-Follows,
}
use pg_shard_router.Registry.Gateway.{
  Wire, WatchBatch, WatchEvent, Opening, Message, opened, unanswered, watch_path, watch_prefix,
  read_opening, stream_batches, batch_of,
}
use pg_shard_router.Registry.Gateway.Stream.{
  Packet, IsSendable, as_message, as_batch, stream_batches-as_message, stream_batches-created,
  stream_batches-canceled,
}
use pg_shard_router.Registry.Http.{Client, Request, pick_endpoint}
use pg_shard_router.Registry.Keys.{prefix}
use pg_shard_router.Registry.RangeEnd.{get_prefix_range_end}

-- The events that the responses carry, in order.
unfoldable pub packed : List Packet → List WatchEvent
packed [] = []
packed (p ∷ ps) = p.events ++ packed ps

pub packed-append : (ps qs : List Packet) → packed (ps ++ qs) ≡ packed ps ++ packed qs
unfolding packed
packed-append [] qs = refl
packed-append (p ∷ ps) qs =
    ap (λ l. p.events ++ l) (packed-append ps qs)
    ∙ sym (append_assoc p.events (packed ps) (packed qs))

-- The revision after that of the last header, or the one before the responses.
abbrev pub after_header : List Packet → ℤ → ℤ
after_header [] rev = rev
after_header (p ∷ ps) rev = after_header ps (inc_int (pos p.revision))

-- A response that the gateway can send and the registry can read.
pub record IsFine (json : Json) (name : ℤ → Bytes) (p : Packet) : Type 0 where
  pub sendable : IsSendable p
  pub positive : 0 < p.revision
  pub well_formed : All (IsWellFormed json name) p.events

-- What ends a stream: nothing, or a message that cancels.
abbrev pub Ends : List Message → Type 0
Ends [] = Unit
Ends (m ∷ ms) = (m.created ≡ false) × (m.canceled ≡ true)

-- A stream that brings these responses after an acknowledgement, up to its end, to a cancelation, or to a cut.
pub record Brings (ps : List Packet) (o : Opening) : Type 0 where
  pub ack : Message
  pub ending : List Message
  pub created : ack.created ≡ true
  pub ends : Ends ending
  pub opens : o ≡ opened 200 (ack ∷ (map as_message ps ++ ending))

-- A watch is not answered, is refused, or brings these responses.
pub data Sends (ps : List Packet) (o : Opening) : Type 0 where
  fails : ps ≡ [] → o ≡ unanswered → Sends ps o
  refuses :
      (status : ℕ) (ms : List Message)
      → ps ≡ []
      → nat_beq status 200 ≡ false
      → o ≡ opened status ms
      → Sends ps o
  brings : Brings ps o → Sends ps o

-- The request for a watch from a revision on.
abbrev pub watch_from : Wire → Client → Bytes → ℤ → Request
watch_from wire c ep start = record {
  endpoint = ep;
  path = watch_path;
  body = wire.watch_body (encode prefix) (encode (get_prefix_range_end prefix)) (decimal_int start);
  token = c.token;
}

pub watch_prefix-read :
    (wire : Wire) (c : Client) (ep : Bytes) (eps : List Bytes) (open_stream : Request → Opening)
    (start : ℤ)
    → c.endpoints ≡ ep ∷ eps
    → watch_prefix wire open_stream prefix start c
      ≡ read_opening (open_stream (watch_from wire c ep start))
unfolding watch_prefix pick_endpoint
watch_prefix-read wire c ep eps open_stream start e = rw e

-- What a stream may end with: nothing, or a cancelation.
abbrev Stops : List WatchBatch → Type 0
Stops [] = Unit
Stops (b ∷ bs) = b.canceled ≡ true

pub stream_batches-Ends : (ms : List Message) → Ends ms → Stops (stream_batches ms)
stream_batches-Ends [] h = unfold stream_batches in tt
stream_batches-Ends (m ∷ ms) h = rw (stream_batches-canceled m ms h.0 h.1) (unfold batch_of in h.1)

module _ (json : Json) (name : ℤ → Bytes) where
  sendable : (ps : List Packet) → All (IsFine json name) ps → All IsSendable ps
  sendable [] h = tt
  sendable (p ∷ ps) h = (h.0.sendable, sendable ps h.1)

  pub read_opening-Brings :
      (ps : List Packet) (o : Opening)
      → All (IsFine json name) ps
      → (b : Brings ps o) → read_opening o ≡ ok (map as_batch ps ++ stream_batches b.ending)
  unfolding read_opening
  read_opening-Brings ps o h b = rw (b.opens) (
      ap ok (
        stream_batches-created b.ack (map as_message ps ++ b.ending) b.created
        ∙ stream_batches-as_message ps b.ending (sendable ps h)))

  consume-Stops : (bs : List WatchBatch) (s : Store × ℤ) → Stops bs → consume json bs s ≡ s
  unfolding consume
  consume-Stops [] s h = refl
  consume-Stops (b ∷ bs) s h = rw h

  -- The map follows the key-space, and the revision is that of the next watch.
  pub record IsAt (held : Keyspace) (next : ℤ) (s : Store × ℤ) : Type 0 where
    pub starts : s.1 ≡ next
    pub follows : Follows json name held s.0

  next_revision :
      (p : Packet) (s : Store × ℤ)
      → 0 < p.revision
      → (apply_batch json (as_batch p) s).1 ≡ inc_int (pos p.revision)
  unfolding apply_batch
  next_revision p s h = ground arith

  pub consume-IsAt :
      (ps : List Packet) (bs : List WatchBatch) (held : Keyspace) (next : ℤ) (s : Store × ℤ)
      → Stops bs
      → All (IsFine json name) ps
      → IsAt held next s
      → IsAt
          (all_happened held (packed ps))
          (after_header ps next)
          (consume json (map as_batch ps ++ bs) s)
  unfolding consume packed all_happened
  consume-IsAt [] bs held next s stop fine h = rw (consume-Stops bs s stop) h
  consume-IsAt (p ∷ ps) bs held next s stop fine h =
      rw (all_happened-append held p.events (packed ps)) (
        consume-IsAt ps bs (all_happened held p.events) (inc_int (pos p.revision))
          (apply_batch json (as_batch p) s) stop fine.1
          (record {
            starts = next_revision p s fine.0.positive;
            follows =
                apply_batch-Follows json name held (as_batch p) s.0 s.1 h.follows
                  fine.0.well_formed;
          }))
