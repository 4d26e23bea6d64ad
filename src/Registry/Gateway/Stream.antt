-- ===== src/Registry/Gateway/Stream.antt =====
-- What the stream of a watch brings: responses of the gateway, each with a revision and events.
use pg_shard_router.Base.{
  ℕ, ◌≤◌, ◌<◌, true, false, List, [], ◌∷◌, ◌++◌, ◌≡◌, ◌≢◌, refl, ap, arith, All, map, if◌then◌else◌,
  ◌==◌,
}
use pg_shard_router.Base.Base64.{encode, decode-encode}
use pg_shard_router.Base.Bytes.{Bytes, bytes_eq, bytes_beq, bytes_beq_iff, decimal}
use pg_shard_router.Base.Int.{pos, max_int}
use pg_shard_router.Base.Sscanf.{sscanf_int-decimal_end}
use pg_shard_router.Registry.Gateway.{
  WatchEvent, WatchBatch, RawEvent, Message, event_put, event_of, batch_of, stream_batches,
}

-- What one response of a watch carries: the revision in its header, and the events of one or more revisions.
pub record Packet : Type 0 where
  pub revision : ℕ
  pub events : List WatchEvent

abbrev pub IsBinaryEvent : WatchEvent → Type 0
IsBinaryEvent ev = (ev.kind ≢ []) × All (λ b. b < 256) ev.key × All (λ b. b < 256) ev.value

-- A response that the gateway can send.
pub record IsSendable (c : Packet) : Type 0 where
  pub small : c.revision ≤ max_int
  pub binary : All IsBinaryEvent c.events

-- An event as the gateway sends it, which leaves out the type of a PUT.
abbrev pub as_raw : WatchEvent → RawEvent
as_raw ev = record {
  kind = if ev.kind == event_put then [] else ev.kind;
  kv = record { key = encode ev.key; value = encode ev.value };
}

abbrev pub as_message : Packet → Message
as_message c = record {
  revision = decimal c.revision;
  created = false;
  canceled = false;
  events = map as_raw c.events;
}

abbrev pub as_batch : Packet → WatchBatch
as_batch c = record { revision = pos c.revision; events = c.events; canceled = false }

sent_kind : Bytes → Bytes
sent_kind kind = if kind == event_put then [] else kind

sent_kind_read :
    (kind : Bytes) → kind ≢ [] → (if sent_kind kind == [] then event_put else sent_kind kind) ≡ kind
unfolding sent_kind bytes_beq
sent_kind_read kind h =
    ground (arith, bytes_beq_iff kind event_put, bytes_beq_iff kind [], bytes_beq_iff [] [])

abbrev with_kind : Bytes → WatchEvent → WatchEvent
with_kind kind ev = record ev { kind = kind }

event_of-as_raw : (ev : WatchEvent) → IsBinaryEvent ev → event_of (as_raw ev) ≡ ev
unfolding event_of sent_kind
event_of-as_raw ev h =
    rw (decode-encode ev.key h.1, decode-encode ev.value h.2)
      (ap (λ k. with_kind k ev) (sent_kind_read ev.kind h.0))

events_of-as_raw :
    (evs : List WatchEvent) → All IsBinaryEvent evs → map event_of (map as_raw evs) ≡ evs
events_of-as_raw [] h = refl
events_of-as_raw (ev ∷ evs) h = rw (event_of-as_raw ev h.0, events_of-as_raw evs h.1)

batch_of-as_message : (c : Packet) → IsSendable c → batch_of (as_message c) ≡ as_batch c
unfolding batch_of
batch_of-as_message c h =
    rw (sscanf_int-decimal_end c.revision h.small, events_of-as_raw c.events h.binary)

-- The responses that are sent arrive as batches, whatever follows them.
pub stream_batches-as_message :
    (cs : List Packet) (ms : List Message)
    → All IsSendable cs
    → stream_batches (map as_message cs ++ ms) ≡ map as_batch cs ++ stream_batches ms
unfolding stream_batches
stream_batches-as_message [] ms h = refl
stream_batches-as_message (c ∷ cs) ms h =
    rw (batch_of-as_message c h.0)
      (ap (λ bs. as_batch c ∷ bs) (stream_batches-as_message cs ms h.1))

-- The acknowledgement of a watch is passed over, and a cancelation is the last batch.
pub stream_batches-created :
    (m : Message) (ms : List Message)
    → m.created ≡ true
    → stream_batches (m ∷ ms) ≡ stream_batches ms
unfolding stream_batches
stream_batches-created m ms h = rw h

pub stream_batches-canceled :
    (m : Message) (ms : List Message)
    → m.created ≡ false
    → m.canceled ≡ true
    → stream_batches (m ∷ ms) ≡ batch_of m ∷ []
unfolding stream_batches
stream_batches-canceled m ms h c = rw (h, c)
