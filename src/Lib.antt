-- ===== src/Lib.antt =====
-- OpenTAMS, a Time Addressable Media Store: a Go server that records, for each media flow, which
-- stored objects cover which time ranges.
--
-- The parts and how they interact. A request is decoded by internal/httpx/conversion into the
-- values of internal/domain, whose times internal/timerange parses. The segment handler claims the
-- request's key in internal/idempotency, so that a retry replays the recorded response, and calls
-- the service of internal/service/segment, which checks the batch and calls the store of
-- internal/metastore. The store converts time ranges to half-open intervals of nanoseconds, keeps
-- the segments of a flow disjoint and counts the segments that refer to an object. A listing comes
-- in pages, which cmd/tamsctl follows by their cursors.
--
-- The files.
--   Timerange: internal/timerange/timerange.go. `parse_timestamp`, `timestamp_text`, `parse`,
--     `range_text`, `is_empty`, `contains`, `intersect` and `overlaps` are `ParseTimestamp`,
--     `Timestamp.String`, `Parse`, `TimeRange.String`, `IsEmpty`, `Contains`, `Intersect` and
--     `Overlaps`. A dereference of nil and the panic of `String` are the result `none`. Nanos is
--     internal/timerange/nsbounds.go: `nanos`, `ns_bounds` and `timestamp_from_duration`, with the
--     wrap-around of int64 written out.
--   Idempotency: internal/idempotency/idempotency.go over the table idempotency_keys: `acquire`,
--     `complete`, `release`, `prune`, `reap_stale`. A call is one step on the table, since each is
--     one statement or one transaction. The two clocks and the failing statements are arguments,
--     and a response body is the JSON value that the JSONB column holds, not its layout as text.
--   Segments: internal/metastore/segments.go over the tables of flows, objects and segments, and
--     the cursor of internal/metastore/store.go. Insert and Write hold `InsertSegments` and
--     `DeleteSegmentsByTimerange` as `insert_segments` and `delete_segments`, whose steps are named
--     after the comments of the code; Listing holds `ListSegments` as `list_segments`, and
--     Containment holds `rangeContains`. The calls of the database that fail are an argument.
--     Consistent, Outcome, References, Transactions, Invariant, Batch, Refresh, Effects, Taken,
--     Deletion, Success, Conditions, Span, Paging, Scanned, Pages, Sides, Subrange and Strictness
--     hold the proofs, Samples and Examples concrete stores.
--   Conversion: internal/httpx/conversion/segment.go and segment_params.go.
--     `register_params_from_api`, `segment_to_api`, `segment_from_api`, `list_params_from_api` and
--     `delete_params_from_api` are the functions of these names. Faithful and Readable follow the
--     texts of a segment through the store.
--   Service: internal/service/segment/segment.go. `register_batch`, `list` and `delete` take the
--     store as a parameter; Policy joins them to Segments.
--   Tamsctl: cmd/tamsctl/paginate.go. `run_list` is `runList` up to the printing of a page. Server
--     joins it to the listing of Segments.
--   Flows: internal/metastore/flows.go and sources.go over the tables of sources, flows, tags and
--     collections, with those of Segments. Write holds `UpsertFlow` and `DeleteFlow`, Fields and
--     Sources the operations on one field, tag or collection, Keyset, Follow and Listing the pages
--     of `ListFlows` and `ListSources`. Operations has all of them as values, which `run_all` runs
--     one after the other. Finish, Counts, Sound, Preserved, Small, Invariant, Keys, Immutable,
--     Errors, Guards, Reads, Wanted, Tags and Columns hold the proofs, Examples concrete databases.
--   Handlers: internal/httpx/handlers/segments.go, flows.go and sources.go. Post is
--     `PostFlowSegments` over the idempotency table and a store behind Service: `prepare` holds the
--     tests before the key is claimed, `disposal` says which response is recorded for the outcome,
--     `dispose` is the call of Complete or Release and the deferred one. Reading holds the handlers
--     that list and delete segments, Urls the projection of their URLs; Flows holds those of one
--     flow, over FlowService, which is internal/service/flow/flow.go, and FlowBodies, the JSON of a
--     flow; Fields those of its fields, tags and collection, Sources those of sources.go, Listings
--     the lists of flows and sources. Retry, Replay, Effects, Puts, ReadBack, Filters and Pages
--     hold the proofs, Examples and FieldExamples concrete requests.
--   Prelude: the integers and their wrap-around, byte strings, decimal numerals, sorted lists,
--     Option and Result.
--
-- Numbers, loops and fuel. A timestamp holds int64 and int32 values, as ℤ with the predicates
-- `IsValid` and `FitsInt64`. Every loop of the server is structural recursion; the printing of a
-- numeral takes the number itself as fuel, which is more than its digits. The loop of
-- `collectRemaining` in `tamsctl` ends only by what the server answers or by the cap on pages. It
-- takes fuel: with a cap, fuel above the pages that the cap leaves is enough, and against the
-- listing of a consistent store, as much fuel as there are segments.
--
-- Parameters. `encoding/json` and `encoding/base64` are the records Codec and Json, with the laws
-- IsCodec and IsJson: decoding undoes encoding, and a JSON text is not empty. The numbers that the
-- sequence of the table gives to new rows, the time of a transaction and the failing calls are
-- arguments. UUIDs are byte strings. The records Env, FlowEnv and CursorCodec stand for
-- `uuid.Parse`, SHA-256, `encoding/json`, `encoding/base64` and `strconv` in the handlers and the
-- cursors, and the predicates Survives and IsCursorCodec for what is used of them: decoding undoes
-- encoding. The object store is a function from an object and the filter to its URLs.
--
-- Not modelled: HTTP routing, middleware, authentication, logging, metrics, configuration, object
-- storage, the rest of the command line and the generated API code, which do input and output or
-- call libraries; the storage service and the handlers of health and storage. The database is
-- modelled by what its statements do to the rows. That a transaction sees no other one's
-- uncommitted rows is assumed, and so is the atomicity of a statement; each transaction on segments
-- is one step, since it locks the row of its flow, and objects that two flows share are counted by
-- single statements. A count of references is an integer without the bound of its INT column. Which
-- of several rows with the same key the database prefers is left to the order of the table. That
-- two calls of a flow's operation may run between its test of read_only and its write is not
-- modelled: an operation is one step. DeleteFlow may leave the counts of objects above the numbers
-- of their segments, so the invariant of Flows has such a drift, which is zero in that of Segments.
mod Prelude
pub mod Timerange
pub mod Idempotency
pub mod Segments
pub mod Flows
pub mod Conversion
pub mod Service
pub mod Handlers
pub mod Tamsctl
