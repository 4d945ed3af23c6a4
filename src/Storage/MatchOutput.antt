-- ===== src/Storage/MatchOutput.antt =====
-- src/storage/fjall.rs: `commit_match_batches`, which replaces a match job by its delivery batches.
pub mod Settling
pub mod Checks
pub mod Completion
use disaster_alert.Prelude.{
  ℕ, suc, ◌+◌, ◌-◌, ◌^◌, Bool, true, false, not, ◌&&◌, ◌||◌, Option, none, some, List, [], ◌∷◌,
  ◌++◌, ◌==◌, ltb, leb, if◌then◌else◌, length, any,
}
use disaster_alert.Text.{text_eq}
use disaster_alert.Event.{DisasterCategory, DisasterEvent, category_eq}
use disaster_alert.Delivery.{DeliveryBatch, DeliveryRow, max_delivery_batch_bytes}
use disaster_alert.Incident.Record.{IncidentRecord}
use disaster_alert.Storage.{
  Store, MatchJob, Codec, job_missing, job_mismatch, event_missing, foreign_batch, empty_batch,
  duplicate_batch, existing_batch, oversized_batch, row_overflow, pending_missing, Result, ok, err,
  ◌>>=◌, ◌>>◌, ensure, or_error, encode, delivery_batch_key, delivery_destination_key,
}
use disaster_alert.Storage.Keyspace.{Map, get, insert, remove, nat_key, pair_key, text_key}
use disaster_alert.Storage.Incidents.{
  is_some, ledger_present, keep_incident_after_empty_match, remove_incident_indexes,
}

-- `delivery_batch`: pending or retained.
unfoldable pub batch_exists : Store → ℕ → Bool
unfolding get is_some delivery_batch_key
batch_exists s id =
    is_some (get s.delivery_batches (delivery_batch_key 0 id))
    || is_some (get s.delivery_batches (delivery_batch_key 1 id))
    || is_some (get s.delivery_progress id)

contains_id : List ℕ → ℕ → Bool
unfolding any
contains_id ids id = any (λ j. j == id) ids

-- The destination keys of the rows from the given index on.
insert_destinations : ℕ → ℕ → List DeliveryRow → Store → Store
unfolding insert delivery_destination_key
insert_destinations batch_id index [] w = w
insert_destinations batch_id index (row ∷ rows) w =
    insert_destinations batch_id (index + 1) rows (record w {
      delivery_by_destination =
          insert w.delivery_by_destination
            (delivery_destination_key row.destination_id batch_id index) tt;
    })

unfoldable pub insert_batches : List DeliveryBatch → Store → Store
unfolding insert delivery_batch_key insert_destinations
insert_batches [] w = w
insert_batches (b ∷ bs) w = insert_batches bs (
    insert_destinations b.id 0 b.rows
      (record w { delivery_batches = insert w.delivery_batches (delivery_batch_key 0 b.id) b }))

module _ (c : Codec) where
  -- The tests on the batches, in order.
  unfoldable pub check_batches :
      Store → MatchJob → DisasterCategory → List ℕ → List DeliveryBatch → Result (Unit {0})
  unfolding text_eq category_eq contains_id batch_exists encode
  check_batches s job category seen [] = ok tt
  check_batches s job category seen (b ∷ bs) = do
    ensure
        (text_eq b.incident_id job.incident_id
          && b.event_revision == job.event_revision
          && category_eq b.category category)
        foreign_batch
    ensure (ltb 0 (length b.rows)) empty_batch
    ensure (not (contains_id seen b.id)) duplicate_batch
    ensure (not (batch_exists s b.id)) existing_batch
    encode (c.delivery_batch b)
    ensure (leb (c.delivery_batch b) max_delivery_batch_bytes) oversized_batch
    ensure (leb (length b.rows) (2 ^ 32)) row_overflow
    check_batches s job category (b.id ∷ seen) bs

  -- One pending job less; an incident that nothing keeps is removed with its indexes.
  unfoldable pub settle_incident : Store → IncidentRecord → Bool → Store → Result Store
  unfolding ledger_present keep_incident_after_empty_match remove_incident_indexes remove insert
      encode
  settle_incident s stored no_batches w = do
    ensure (ltb 0 stored.pending_match_jobs) pending_missing
    let incident : IncidentRecord = record stored {
      pending_match_jobs = stored.pending_match_jobs - 1;
    }
    let matched : IncidentRecord = record incident {
      has_matched_subscribers = incident.has_matched_subscribers || not no_batches;
    }
    (if no_batches && not (keep_incident_after_empty_match incident (ledger_present s incident.id))
        then (remove_incident_indexes s incident.id w >>= λ w'.
            ok (record w' { incidents = remove w'.incidents incident.id }))
        else encode (c.incident matched)
          >> ok (record w { incidents = insert w.incidents incident.id matched }))

  settle_found : Store → Option IncidentRecord → Bool → Store → Result Store
  unfolding settle_incident
  settle_found s none no_batches w = ok w
  settle_found s (some stored) no_batches w = settle_incident s stored no_batches w

  -- The writes, when the batches have passed.
  commit_checked : ℕ → MatchJob → List DeliveryBatch → Store → Result Store
  unfolding get remove settle_found insert_batches
  commit_checked job_id job batches s =
      let no_batches : Bool = length batches == 0 in
      let start : Store =
        if no_batches then (record s { events = remove s.events job.event_revision }) else s in
      do
        w ← settle_found s (get s.incidents job.incident_id) no_batches start
        let w' : Store = insert_batches batches w
        ok (record w' { match_jobs = remove w'.match_jobs job_id })

  unfoldable pub commit_match_batches : ℕ → List DeliveryBatch → Store → Result Store
  unfolding get check_batches commit_checked
  commit_match_batches job_id batches s = do
    job ← or_error (get s.match_jobs job_id) job_missing
    ensure (job.id == job_id) job_mismatch
    event ← or_error (get s.events job.event_revision) event_missing
    check_batches s job event.category [] batches
    commit_checked job_id job batches s
