-- ===== src/Registry/Gateway.antt =====
-- `rangePrefix` and `watchPrefix` of internal/registry/etcdhttp.go: the JSON of etcd's gateway, with
-- keys and values in base64. The JSON encoders and decoders are arguments; so is the stream of a
-- watch, as the messages that decode before it ends. The revision of an event and the reason of a
-- cancelation, which only the log has, are left out.
pub mod Prefix
pub mod Stream
mod Tests
use pg_shard_router.Base.{
  ℕ, suc, Bool, true, false, Option, none, some, List, [], ◌∷◌, ◌++◌, ◌==◌, nat_beq, map,
  if◌then◌else◌,
}
use pg_shard_router.Base.Base64.{encode, decode}
use pg_shard_router.Base.Bytes.{Bytes, codes, bytes_eq, decimal_int}
use pg_shard_router.Base.Int.{ℤ, pos}
use pg_shard_router.Base.Result.{Result, ok, err, ◌>>=◌, or_fail}
use pg_shard_router.Base.Sscanf.{sscanf_int}
use pg_shard_router.Registry.Http.{
  Client, Request, HttpError, Session, Network, pick_endpoint, post_any,
}
use pg_shard_router.Registry.RangeEnd.{get_prefix_range_end}

-- `kv`: a key and a value in base64.
pub record Kv : Type 0 where
  pub key : Bytes
  pub value : Bytes

pub record RangeResponse : Type 0 where
  pub revision : Bytes
  pub kvs : List Kv

pub record DecodedKv : Type 0 where
  pub key : Bytes
  pub value : Bytes

abbrev pub event_put : Bytes
event_put = codes "PUT"

pub record WatchEvent : Type 0 where
  pub kind : Bytes
  pub key : Bytes
  pub value : Bytes

pub record WatchBatch : Type 0 where
  pub revision : ℤ
  pub events : List WatchEvent
  pub canceled : Bool

-- An event and a message of the stream, as they are decoded from JSON.
pub record RawEvent : Type 0 where
  pub kind : Bytes
  pub kv : Kv

pub record Message : Type 0 where
  pub revision : Bytes
  pub created : Bool
  pub canceled : Bool
  pub events : List RawEvent

-- `json.Marshal` of the two requests, and `json.Unmarshal` of the answer to the first.
pub record Wire : Type 0 where
  pub range_body : Bytes → Bytes → Bytes
  pub range_response : Bytes → Option RangeResponse
  pub watch_body : Bytes → Bytes → Bytes → Bytes

pub data RangeError : Type 0 where
  not_answered : HttpError → RangeError
  bad_response bad_key bad_value : RangeError

abbrev pub range_path : Bytes
range_path = codes "/v3/kv/range"

abbrev pub watch_path : Bytes
watch_path = codes "/v3/watch"

-- `DecodeString`, with its error.
decoded : Bytes → RangeError → Result RangeError Bytes
decoded s e = let (out, done) = decode s in if done then ok out else err e

abbrev pair : Bytes → Bytes → DecodedKv
pair key value = record { key = key; value = value }

-- The loop over `resp.Kvs`.
unfoldable pub decode_kvs : List Kv → Result RangeError (List DecodedKv)
unfolding decoded
decode_kvs [] = ok []
decode_kvs (e ∷ kvs) = do
  key ← decoded e.key bad_key
  value ← decoded e.value bad_value
  rest ← decode_kvs kvs
  ok (pair key value ∷ rest)

-- A number that `Sscanf` cannot read stays 0.
abbrev pub or_zero : Option ℤ → ℤ
or_zero none = pos 0
or_zero (some n) = n

unfoldable pub read_response : Option RangeResponse → Result RangeError (List DecodedKv × ℤ)
unfolding decode_kvs
read_response none = err bad_response
read_response (some resp) = do
  out ← decode_kvs resp.kvs
  ok (out, or_zero (sscanf_int resp.revision))

module _ (wire : Wire) where
  range_request : Bytes → Bytes
  range_request prefix = wire.range_body (encode prefix) (encode (get_prefix_range_end prefix))

  read_answer : Result HttpError Bytes → Result RangeError (List DecodedKv × ℤ)
  unfolding read_response
  read_answer (err e) = err (not_answered e)
  read_answer (ok raw) = read_response (wire.range_response raw)

  unfoldable pub range_prefix :
      Network → Bytes → Session → Session × Result RangeError (List DecodedKv × ℤ)
  unfolding range_request read_answer
  range_prefix net prefix s =
      let (s', answer) = post_any net range_path (range_request prefix) s in
      (s', read_answer answer)

unfoldable pub event_of : RawEvent → WatchEvent
event_of ev = record {
  kind = if ev.kind == [] then event_put else ev.kind;
  key = (decode ev.kv.key).0;
  value = (decode ev.kv.value).0;
}

unfoldable pub batch_of : Message → WatchBatch
unfolding event_of
batch_of m = record {
  revision = or_zero (sscanf_int m.revision);
  events = map event_of m.events;
  canceled = m.canceled;
}

-- The goroutine's loop over the messages of the stream, as what it sends to the channel.
unfoldable pub stream_batches : List Message → List WatchBatch
unfolding batch_of
stream_batches [] = []
stream_batches (m ∷ ms) =
    let rest = stream_batches ms in
    if m.created then rest else if m.canceled then batch_of m ∷ [] else batch_of m ∷ rest

-- What a watch request meets: no answer, or a status and the messages of the body.
pub data Opening : Type 0 where
  unanswered : Opening
  opened : ℕ → List Message → Opening

pub data WatchError : Type 0 where
  no_endpoint : HttpError → WatchError
  not_opened : WatchError
  unexpected_status : ℕ → WatchError

unfoldable pub read_opening : Opening → Result WatchError (List WatchBatch)
unfolding stream_batches
read_opening unanswered = err not_opened
read_opening (opened status ms) =
    if nat_beq status 200 then ok (stream_batches ms) else err (unexpected_status status)

module _ (wire : Wire) where
  watch_request : Bytes → ℤ → Bytes
  watch_request prefix start =
      wire.watch_body (encode prefix) (encode (get_prefix_range_end prefix)) (decimal_int start)

  unfoldable pub watch_prefix :
      (Request → Opening) → Bytes → ℤ → Client → Result WatchError (List WatchBatch)
  unfolding watch_request read_opening
  watch_prefix open_stream prefix start c = elim (pick_endpoint c) [
    | err e ↦ err (no_endpoint e)
    | ok url ↦ read_opening (
        open_stream (record {
          endpoint = url;
          path = watch_path;
          body = watch_request prefix start;
          token = c.token;
        }))
  ]
