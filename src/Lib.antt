-- ===== src/Lib.antt =====
-- A model of the scheduling core of apiGateway, a gateway that routes requests for a local API (LAPI) to
-- one of several upstream endpoints (RAPI) with one of several credentials (PlatformKey), of its proxy
-- around that core, and of the synchronisation of its configuration with a center.
--
-- Parts and files (paths from the repository's root):
--   Fsm        internal/fsm/fsm.go: the state machine engine; Fsm/Index on its transition index
--   Entity     internal/entity/entity.go: states, events, payloads, predicates on rows; Entity/Rows, and
--              Entity/Bodies for the keywords in the body of an error
--   Key        internal/entity/key.go: the machine of a credential: Key (effects and transitions), Key/Calls
--              (methods), Key/Edges (the transition table, computed), Key/Invariant, Key/Sync, Key/Refusal,
--              Key/Stuck
--   Rapi       internal/entity/rapi.go: the machine of an endpoint: Rapi, Rapi/Calls, Rapi/Edges,
--              Rapi/Backoff, Rapi/Invariant, Rapi/Recovery, Rapi/Twice
--   Platform   internal/entity/platform.go: the machine of a provider
--   Formats    internal/apiformat/format.go and RAPIWithPlatform of internal/models/models.go
--   Scheduler  internal/scheduler/scheduler.go: Manager (its state and the Mark calls), Counters and Cost (the
--              cost of an endpoint), Endpoints (PickAvailable), Cursor and Keys (PickAvailableKey), Pool
--              (MarkPoolExhausted), Requests (RetryAt, EstimateCost), Recovery (recoveryLoop), Waiting (Wait),
--              Reachable (any sequence of calls), and Snapshot for internal/scheduler/snapshot.go
--   Gateway    internal/gateway/gateway.go: the proxy's state with the table of blocked (key, model) pairs;
--              Gateway/Pool (handleAllKeysUnavailable, markPoolExhausted), Gateway/Attempt (tryKeyForRAPI),
--              Gateway/Request (handleNonStreamingRequest), Gateway/Stream (handleStreamingRequest) and
--              Gateway/Usage (extractUsageDetail, filterKeysByKeyIDs);
--              Blocks, Losses, Rounds, Ends, Success, Alignment, Request/Relayed and Stream/Frames on them
--   Service    internal/service: SyncMerge (sync_merge.go) with Rows, Unique, Adds, Lookup, News and Told;
--              SyncDirty (sync_dirty.go); Sync (syncOnce, pullApplyBundle and applyMerge of sync.go) with
--              Marks
--   Crypto     internal/crypto/crypto.go, with Crypto/RoundTrip
--   Bundle     internal/bundle/bundle.go: the rows of a configuration bundle; Bundle/Merge the unions by natural
--              key of internal/bundle/merge.go, Bundle/Merge/Union and Integrity on them;
--              Bundle/Merge/Chains the subsequence test of its routing chains
--   Prelude, Clock and Host are shared: tests and lists, time.Time and time.Duration, and what is taken from
--   Go's library. Tests holds concrete runs.
--
-- The Manager owns one entity per endpoint, credential and provider; each entity owns a machine whose
-- effects change the entity. A pick asks the entities whether they can serve; the results of a request
-- come back by the Mark calls; the recovery loop advances the machines whose timers have run out. The
-- proxy picks an endpoint, tries its keys in turn, and reports each reply to the Manager. A round of the
-- synchronisation merges the local definitions with the center's, stores the union and pushes it back.
--
-- Correspondence: a struct is a record and a Go map an association list, whose order stands for any order
-- of iteration. A method is a function with the Go name in snake case from the state (and the readings of
-- the clock) to the new state and its results. A key or an endpoint is a pair of its machine and its own
-- fields. Calls of the Store are recorded as values in the entity that makes them. A payload of a wrong
-- type, which panics in Go, sets a flag that Inv excludes.
--
-- Bounds: a time is a number of nanoseconds since the zero Time, and a duration an int64 whose shift and
-- product wrap as in Go; the cursor of a rotation wraps at 2 ^ 64. Other counts are unbounded. Three loops of
-- the proxy run on fuel: that of tryKeyForRAPI, for which one more than the number of keys, and two at
-- least, is enough while the clock stands still, and those of handleNonStreamingRequest and handleStreamingRequest, which may wait
-- for ever in Go too. Every other loop runs over a list.
--
-- Parameters: the local calendar, the clock's text and the two JSON decoders are fields of Host; TrimSpace and
-- the comparison of rows by package reflect are fields of Bundle.Merge.Library and Service.SyncMerge.Library;
-- functions on texts and headers are fields of Host.Library, JSON of Gateway.Usage.Json, and bytes, hex and
-- AES-GCM of Crypto.Library. The upstream, the clock, the waiting and the conversions are arguments of
-- Gateway/Attempt, Gateway/Request and Gateway/Stream. The operations of internal/db on definitions, which is
-- not modelled, are arguments of Service/Sync, of which nothing is assumed; so are the network and the edits
-- of the panel. Sorting by sort.SliceStable is a stable insertion sort.
--
-- Not modelled: locks, condition variables and timers (each call is atomic under the Manager's, the entity's
-- or the gateway's lock; the settings of the dirty mark are written in one step, while its generation and the
-- mark are two); the bodies of requests and of streams, conversion between protocols and the writing of logs
-- and metrics; the contexts of requests; the database; the merging of local APIs and their chains in
-- internal/bundle/merge.go; the administration of internal/service. AES, hex and JSON are Go's library.
pub mod Prelude
pub mod Clock
pub mod Fsm
pub mod Entity
pub mod Key
pub mod Rapi
pub mod Platform
pub mod Host
pub mod Formats
pub mod Scheduler
pub mod Tests
pub mod Bundle
pub mod Gateway
pub mod Service
pub mod Crypto
