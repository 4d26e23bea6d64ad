-- ===== src/Registry/Loops/Sample.antt =====
-- A server of etcd's streams, on which theorems about the watch are tried. Bucket 7 has moved at revision 12 and
-- the shard was dropped at revision 14, and the first response brings the former only.
use pg_shard_router.Base.{
  ℕ, zero, suc, false, true, none, List, [], ◌∷◌, ◌++◌, refl, arith, map, All,
}
use pg_shard_router.Base.Bytes.{codes, decimal}
use pg_shard_router.Base.Int.{ℤ}
use pg_shard_router.Registry.Gateway.{Wire, Message, Opening, unanswered, opened}
use pg_shard_router.Registry.Gateway.Stream.{Packet, as_message}
use pg_shard_router.Registry.Http.{Client, Network, Request, failed}
use pg_shard_router.Registry.Loops.Received.{IsFine, Sends, fails, brings, watch_from}
use pg_shard_router.Registry.Etcd.Follows.{IsWellFormed}
use pg_shard_router.Registry.Etcd.Watch.{as_put}
use pg_shard_router.Registry.Etcd.{event_put}
use pg_shard_router.Registry.Keys.{buckets_prefix}
use pg_shard_router.Registry.Sample.{
  AreBytes-tested, json, name, kvs, IsWellFormed-shard, IsWellFormed-bucket,
}

-- Bucket 7 has moved at revision 12, and the header has the revision that etcd is at.
abbrev pub moved : Packet
moved = record {
  revision = 14;
  events =
      record { kind = event_put; key = buckets_prefix ++ codes "7"; value = codes "shard-05" } ∷ [];
}

abbrev pub wire : Wire
wire = record {
  range_body = λ key range_end. key;
  range_response = λ raw. none;
  watch_body = λ key range_end start. start;
}

abbrev pub ack : Message
ack = record { revision = decimal 11; created = true; canceled = false; events = [] }

abbrev pub cancel : Message
cancel = record { revision = decimal 11; created = false; canceled = true; events = [] }

-- The first stream is canceled after one response, the second is not answered, the others bring nothing.
abbrev pub streams : ℕ → Request → Opening
streams zero r = opened 200 (ack ∷ as_message moved ∷ cancel ∷ [])
streams (suc zero) r = unanswered
streams (suc (suc k)) r = opened 200 (ack ∷ [])

abbrev pub got : ℕ → ℤ → List Packet
got zero start = moved ∷ []
got (suc k) start = []

abbrev pub client : Client
client = record {
  endpoints = codes "http://etcd-01" ∷ [];
  username = [];
  password = [];
  token = [];
}

abbrev pub net : Network
net = record { answer = λ n r. failed; auth_body = λ u p. u ++ p; token_of = λ s. none }

pub Sends-got :
    (k : ℕ) (start : ℤ)
    → Sends (got k start) (streams k (watch_from wire client (codes "http://etcd-01") start))
Sends-got zero start =
    brings (record {
      ack = ack;
      ending = cancel ∷ [];
      created = refl;
      ends = (refl, refl);
      opens = refl;
    })
Sends-got (suc zero) start = fails refl refl
Sends-got (suc (suc k)) start =
    brings (record { ack = ack; ending = []; created = refl; ends = tt; opens = refl })

pub IsFine-got : (k : ℕ) (start : ℤ) → All (IsFine json name) (got k start)
IsFine-got zero start = (
  record {
    sendable = record {
      small = omega arith;
      binary = (
        (
          λ e. cc,
          AreBytes-tested (buckets_prefix ++ codes "7") refl,
          AreBytes-tested (codes "shard-05") refl,
        ),
        tt,
      );
    };
    positive = omega arith;
    well_formed = (IsWellFormed-bucket event_put _, tt);
  },
  tt,
)
IsFine-got (suc k) start = tt

pub IsWellFormed-kvs : All (IsWellFormed json name) (map as_put kvs)
IsWellFormed-kvs = (IsWellFormed-shard event_put _, (IsWellFormed-bucket event_put _, tt))
