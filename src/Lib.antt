-- ===== src/Lib.antt =====
-- pg-shard-router: a service that finds the PostgreSQL shard of a business key. A key is hashed to a
-- virtual bucket; the shard map, which etcd holds and the service keeps a copy of, assigns the
-- bucket to a shard and, during a migration, to a destination too; connections come from pools that
-- a circuit breaker for each shard guards; an HTTP API routes keys and runs statements.
--
-- Which file is about which part (paths from the repository's root):
--   Model       internal/model/types.go: the definitions of shards and buckets. A Go string type with
--               constants is any text, as there.
--   Hashing     internal/hashing/hash.go: `bucket_for` is BucketFor. Sha256 writes crypto/sha256 out, on
--               32-bit words with their wrap-around; key_text is fmt's %v for the keys that callers
--               and JSON give, a JSON number being a float64.
--   Cache       internal/cache/mapping.go: Mapping, Clone, and the Store with its atomic pointer.
--               Cache/Heap has the maps as objects in memory, behind pointers.
--   Router      internal/router/router.go: `resolve` is Resolve, with `migrate` for its switch and
--               `refuse_inactive` for its loop. Router/Spec is an independent description: the phase
--               of a bucket by a table, and which shards a phase reads from and writes to.
--               Router/Handover has the order of the states, and replicas that are one state apart.
--   Breaker     internal/breaker/breaker.go: Allow, Success, Failure, and the registry of breakers.
--               Breaker/Calls runs sequences of calls, as the mutex orders them.
--   Registry    internal/registry: Keys is keys.go; Apply is applyKV of etcd.go; Etcd is the body of
--               loadAll and the loop of watchLoop over a watch's batches; Loops is NewEtcdRegistry,
--               Start, watchLoop's loop over its watches and the rounds of reconcileLoop. Of
--               etcdhttp.go, Http is authenticate and postAny, Gateway is rangePrefix and
--               watchPrefix, RangeEnd is getPrefixRangeEnd. File is file.go. Shared has the two loops of
--               etcd.go on maps in memory, in single steps. Watcher has the two goroutines of a watch,
--               with the context that stops them, in single steps. Interface is registry.go.
--   Pool        internal/pool/manager.go: poolFor in the sections that hold the mutex (`find_pool`,
--               `install`), reapOnce, Close; Pool/Acquire has Acquire. Pool/Ownership interleaves the
--               sections in any order; Pool/Reaper has reapLoop and the channel that stops it.
--   Metrics     internal/metrics/metrics.go: the counters.
--   Api         internal/api/server.go: healthz and /v1/route; Api/Query has /v1/query, Api/Page has
--               /metrics, and Api/Dispatch has NewServer's routes.
--   Secrets     internal/secrets/provider.go: EnvProvider.
--   Config      internal/config/config.go: Load.
--   Startup     cmd/shard-router/main.go: `run` up to the point at which the server listens;
--               Startup/Shutdown has its end, with Close of the registries; Startup/Main is `main`;
--               Startup/Registries is `run` with the registry behind its interface.
--               Startup/Current puts etcd's keys, the registry and the router together.
--   Base        Numbers, texts as lists of bytes, maps as association lists, results, and what the
--               code uses of strconv, strings, encoding/base64 and fmt's Sscanf, written out.
--
-- How they meet: Registry changes the Store of Cache, Router reads it; Api calls Router, then
-- Pool/Acquire, which asks Breaker; each is the code's own call. A Go map is a list of pairs with
-- one pair for each key; where the order in which `range` visits it could matter, the visit is an
-- argument (File) or two visits are compared (Api/Page). Startup calls Config and one of the two
-- registries, and makes the others.
--
-- The goroutines of the etcd registry are a list of turns: a watch from its request to the end of
-- its stream, or one load. A load is not interrupted in Loops; Etcd/Race has a load that is,
-- and in Shared the two interleave at every key. Nothing is supposed of the order or the packing of
-- the events that etcd sends, nor of the revisions in its headers but that they are positive and an
-- int64 holds them (Loops/Received); Loops/Resumes follows any number of watches.
--
-- Numbers: an int and an int64 are integers, whose increment wraps at 2^63 (`inc_int`); strconv.Atoi
-- refuses what does not fit. Times are natural numbers of nanoseconds, and a difference of times is
-- compared as a sum. Loops are recursions on their lists; those on numbers have fuel: `decimal`
-- takes n + 1 steps for a number n, `strip_zeros` 21 for a number below 2^53, which has 16 digits at
-- most (a JSON number is a whole number below 2^53, which a float64 holds exactly; other keys come
-- with their text), and SHA-256 one for each block of the padded text.
--
-- Parameters: the JSON decoders of the two kinds of values (Json) and of the gateway's messages
-- (Wire), the answers of the network, which may differ from one request to the next (Network), the
-- messages of each watch's stream before it ends (Opening), the secrets provider, the driver and
-- the clock (Env), the databases (Database), environment variables (Variables, Environment),
-- time.ParseDuration, upper case beyond ASCII, fmt's %q, files and their decoder (World). Nothing
-- is supposed of them but what a theorem names.
--
-- Not modelled: how long the pauses last and when the tickers tick (lists of turns, moves or events
-- have the ticks, in any order); what ServeMux does to a path before it is matched; the 30 s timeout
-- of a query, which is part of what the databases answer; an idle time of 1 ns, on which reapLoop's
-- NewTicker panics and which no setting gives; how a signal is delivered; the text of
-- error messages and of the log.
pub mod Base
pub mod Model
pub mod Hashing
pub mod Cache
pub mod Router
pub mod Breaker
pub mod Registry
pub mod Pool
pub mod Metrics
pub mod Api
pub mod Secrets
pub mod Config
pub mod Startup
