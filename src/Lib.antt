-- ===== src/Lib.antt =====
-- disaster-alert: reports of earthquakes from providers, merged into incidents and matched against
-- subscriptions, with durable state between the stages.
--
-- A provider's report (`DisasterEvent`) is put into the inbox of the store (`ingest_with_cursor`). The
-- event coordinator takes the oldest inbox item (`process_next`), finds its incident by its key or by
-- correlation in time and space (`resolve_incident`), applies it to the incident (`reduce_incident_at`,
-- `apply_outcome`), and commits the incident together with a match job for the matcher
-- (`commit_incident`). The matcher's output replaces the job by delivery batches
-- (`commit_match_batches`). The pending rows of a batch are taken in lanes, one for each destination,
-- which send, skip, put off or give up each row (`process_destination_lane`) and commit the outcome
-- (`commit_delivery_lane_outcome`); what was put off stands as a retry until it is completed
-- (`complete_retry`). A subscription begins with a confirmation, which workers lease until it is sent or
-- given up. What it asks for is compiled and found by an event through its posting keys
-- (`for_subscription`, `for_event`, `match_compiled_with_context`).
--
-- The files:
--   Prelude       lists, numbers, integers and Boolean tests shared by all parts.
--   Text          strings as lists of code points; decimals; splitting.
--   Event         src/models/disaster.rs. `Event.Key` is about `event_key`, `Event.Digest` models
--                 `event_update_digest`, `Event.Time` the parsing of times, `Event.Float` the
--                 comparisons of `f64`.
--   Sources       src/source_registry.rs.
--   Region, Geo   src/utils/region.rs and src/utils/distance.rs.
--   Incident      src/models/incident.rs: `Incident.Watermark` is `IncidentStreamWatermark`, and
--                 `Incident.Record` is `IncidentRecord`, with their methods.
--   Delivery      the records of src/delivery/mod.rs.
--   Storage       src/storage/fjall.rs: `Storage.Keyspace` is a keyspace, `Storage.Ingest` the inbox,
--                 `Storage.Correlation` the search for an incident, `Storage.Incidents` the commit of an
--                 incident, `Storage.MatchOutput` the commit of a job's output, `Storage.Lanes` the
--                 commit of a lane of deliveries, `Storage.Retries` the retries, and
--                 `Storage.Confirmations` the records of confirmations.
--   Events        src/events/coordinator.rs and src/events/reducer.rs.
--   Subscription  src/models/subscription.rs: `Subscription.Validate` is `validate`, and
--                 `Subscription.Confirmations` the confirmations of src/subscriptions/manager.rs.
--   Matching      src/subscriptions/compiled.rs, with `Matching.Postings` for the posting keys,
--                 `Matching.Engine` for src/matching/engine.rs and `Matching.Plan` for
--                 src/matching/plan.rs.
--   Intensity     src/utils/intensity.rs.
--   Runtime       src/runtime/ready_queue.rs, and in `Runtime.Lane` the lanes of
--                 src/runtime/pipeline.rs.
--   Examples      small reports and stores at which the theorems are applied.
--
-- State. A `Store` is the keyspaces of `FjallStorage` that the event pipeline uses, each a list of
-- entries in the order of the keys. An operation takes the store and returns a result with the store;
-- a write batch is committed whole, and an error before the commit leaves the store as it was, but for
-- identifiers, which the source writes at once. The locks of the source make each operation one step.
-- An anyhow error is a constructor of `Error`, named for the check that fails.
--
-- Not the program's, and so parameters: SHA-256, base64 and lower case (`Platform`), the arithmetic of
-- floats (`FloatOps`, `MatchOps`), the cells of H3 (`grid_disk`), the parser of URLs (`Urls`), the length
-- of a record in CBOR (`Codec`), the bytes of a confirmation in CBOR (`ConfirmationCodec`), and the clock
-- (`now_ms`). Of these, `ConfirmationCodec` reads what it has written, before the program drops the rules
-- of retired categories. Where a theorem says that a record is short enough, it is about the records
-- that are written there: the batches and the one incident of a match job, or, in a lane, records of
-- numbers with an error of at most 1024 characters, to which the program cuts it. Nothing else is assumed
-- of them. `Sender`, what comes of a notification, is a parameter too, though its timing, its link and
-- its request are the program's: they are not modelled.
--
-- Numbers. A `u32`, `u64` or `u8` is a natural number, with the bounds that the source checks written
-- out; an `i64` is an integer, with saturating operations where the source has them; an `f64` is its
-- bit pattern. The loops of the source go over lists and are recursion on them; the iteration of
-- Vincenty's formula has the source's own limit as its fuel.
--
-- Not modelled: failures of the disk, the requests to Bark with their texts and countdowns, the
-- threads and queues of the pipeline (a lane is one step, while the lanes of other destinations of a
-- batch may come between its reads and writes), the building of batches from matched rows, the reading
-- of posting blocks, the targets of a compiled subscription, the HTTP routes, the providers'
-- connections, configuration and logs.
mod Prelude
pub mod Text
pub mod Region
pub mod Event
pub mod Sources
pub mod Geo
pub mod Intensity
pub mod Incident
pub mod Delivery
pub mod Subscription
pub mod Matching
pub mod Storage
pub mod Events
pub mod Runtime
pub mod Examples
