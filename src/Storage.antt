-- ===== src/Storage.antt =====
-- src/storage/fjall.rs: the durable state of the event pipeline, and its errors.
--
-- A keyspace of Fjall is a `Map`, the entries in the order of their keys; a write batch is committed
-- whole, as Fjall documents, and an error of Fjall itself is not modelled. A `u64` key in big-endian
-- bytes sorts as the number. A lock of the source makes each operation here one step. The CBOR codec is
-- not the program's: a record is stored as itself, and `Codec` gives the length of its encoding.
pub mod Keyspace
pub mod Pointwise
pub mod Ingest
pub mod Correlation
pub mod Incidents
pub mod MatchOutput
pub mod Lanes
pub mod Retries
pub mod Confirmations
use disaster_alert.Prelude.{
  ℕ, ◌+◌, ◌*◌, ◌^◌, Bool, true, false, Option, none, some, List, [], ◌∷◌, ◌++◌, leb, if◌then◌else◌,
}
use disaster_alert.Prelude.Int.{ℤ}
use disaster_alert.Text.{Text, text}
use disaster_alert.Event.{
  DisasterCategory, earthquake_warning, earthquake_report, weather_warning, tsunami, typhoon,
  ProviderChannel, DisasterEvent,
}
use disaster_alert.Incident.{IncidentId, IncidentCapacity}
use disaster_alert.Incident.Record.{IncidentRecord}
use disaster_alert.Delivery.{DeliveryBatch, DeliveryRow, RetryItem, DeadLetterItem}
use Keyspace.{Map}

-- src/events/mod.rs.
pub record MatchJob : Type 0 where
  pub id : ℕ
  pub incident_id : IncidentId
  pub event_revision : ℕ
  pub created_at_ms : ℤ

pub record InboxItem : Type 0 where
  pub id : ℕ
  pub provider : ProviderChannel
  pub received_at_ms : ℤ
  pub event : DisasterEvent

pub record RejectedInboxItem : Type 0 where
  pub item : InboxItem
  pub rejected_at_ms : ℤ
  pub capacity : IncidentCapacity

pub record StoredDelivery : Type 0 where
  pub delivered_at_ms : ℤ
  pub event_revision : ℕ
  pub row : DeliveryRow

pub record Store : Type 0 where
  pub next_ids : Map Text ℕ
  pub cursors : Map Text Text
  pub inbox : Map ℕ InboxItem
  pub rejected_inbox : Map ℕ RejectedInboxItem
  pub incidents : Map IncidentId IncidentRecord
  pub incident_aliases : Map Text IncidentId
  pub incident_aliases_by_incident : Map Text Text
  pub incident_correlation : Map Text IncidentId
  pub incident_correlation_by_incident : Map Text Text
  pub events : Map ℕ DisasterEvent
  pub match_jobs : Map ℕ MatchJob
  pub delivery_batches : Map (ℕ × ℕ) DeliveryBatch
  pub delivery_progress : Map ℕ (List ℕ)
  pub delivery_by_destination : Map ((ℕ × ℕ) × ℕ) (Unit {0})
  pub ledger : Map Text StoredDelivery
  pub retries : Map (ℕ × ℕ) RetryItem
  pub retries_by_destination : Map ((ℕ × ℕ) × (ℕ × ℕ)) (ℕ × ℕ)
  pub retries_by_batch : Map (ℕ × ℕ) (ℕ × ℕ)
  pub dead_letters : Map (ℕ × ℕ) DeadLetterItem
  pub confirmations : Map ℕ (List ℕ)
  pub confirmation_destinations : Map Text ℕ

abbrev pub empty_store : Store
empty_store = record {
  next_ids = [];
  cursors = [];
  inbox = [];
  rejected_inbox = [];
  incidents = [];
  incident_aliases = [];
  incident_aliases_by_incident = [];
  incident_correlation = [];
  incident_correlation_by_incident = [];
  events = [];
  match_jobs = [];
  delivery_batches = [];
  delivery_progress = [];
  delivery_by_destination = [];
  ledger = [];
  retries = [];
  retries_by_destination = [];
  retries_by_batch = [];
  dead_letters = [];
  confirmations = [];
  confirmation_destinations = [];
}

pub data Error : Type 0 where
  capacity : IncidentCapacity → Error
  ids_exhausted record_oversized : Error
  inbox_batch_oversized unknown_cursor inbox_item_disagrees : Error
  alias_invalid alias_without_record alias_taken alias_orphaned alias_mismatch : Error
  correlation_truncated correlation_invalid correlation_without_record : Error
  correlation_orphaned correlation_mismatch : Error
  pending_overflow pending_missing : Error
  job_missing job_mismatch event_missing : Error
  foreign_batch empty_batch duplicate_batch existing_batch oversized_batch row_overflow : Error
  batch_missing batch_mismatch row_invalid row_repeated repeated_completed mixed_destinations :
      Error
  repeated_retry skipped_mismatch success_mismatch dead_letter_mismatch retry_mismatch : Error
  invalid_subscription invalid_confirmation confirmation_mismatch lease_exhausted : Error
  outcome_missing retry_missing retry_changed retry_orphaned : Error

-- `anyhow::Result`.
pub data Result {ℓ} (A : Type ℓ) : Type ℓ where
  err : Error → Result A
  ok : A → Result A

-- `ensure!`.
abbrev pub ensure : Bool → Error → Result (Unit {0})
ensure holds e = if holds then ok tt else err e

-- `Context::context` on a missing value.
abbrev pub or_error {ℓ} : {A : Type ℓ} → Option A → Error → Result A
or_error none e = err e
or_error (some a) e = ok a

-- The operator `?`.
module _ {ℓ κ} {A : Type ℓ} {B : Type κ} where
  infixl 5 ◌>>=◌
  abbrev pub ◌>>=◌ : Result A → (A → Result B) → Result B
  err e >>= k = err e
  ok a >>= k = k a

-- The operator `?` on a check.
infixl 5 ◌>>◌
abbrev pub ◌>>◌ {ℓ} : {A : Type ℓ} → Result (Unit {0}) → Result A → Result A
checked >> next = checked >>= λ _. next

-- The lengths of encoded records.
pub record Codec : Type 0 where
  pub inbox_item : InboxItem → ℕ
  pub rejected_item : RejectedInboxItem → ℕ
  pub incident : IncidentRecord → ℕ
  pub event : DisasterEvent → ℕ
  pub match_job : MatchJob → ℕ
  pub delivery_batch : DeliveryBatch → ℕ
  pub stored_delivery : StoredDelivery → ℕ
  pub retry : RetryItem → ℕ
  pub dead_letter : DeadLetterItem → ℕ

abbrev pub max_record_bytes : ℕ
max_record_bytes = 524288

-- `encode`.
unfoldable pub encode : ℕ → Result (Unit {0})
encode encoded_len = ensure (leb encoded_len max_record_bytes) record_oversized

unfoldable pub category_code : DisasterCategory → ℕ
category_code earthquake_warning = 1
category_code earthquake_report = 2
category_code weather_warning = 3
category_code tsunami = 4
category_code typhoon = 5

-- State 0 is pending and state 1 retained.
unfoldable pub delivery_batch_key : ℕ → ℕ → ℕ × ℕ
delivery_batch_key state id = (state, id)

unfoldable pub delivery_destination_key : ℕ → ℕ → ℕ → (ℕ × ℕ) × ℕ
delivery_destination_key destination_id batch_id row_index = ((destination_id, batch_id), row_index)
