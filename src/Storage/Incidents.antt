-- ===== src/Storage/Incidents.antt =====
-- src/storage/fjall.rs: committing what one report does to an incident, with all indexes.
pub mod Records
pub mod Pending
use disaster_alert.Prelude.{
  ℕ, suc, ◌+◌, ◌-◌, ◌^◌, Bool, true, false, not, ◌&&◌, ◌||◌, Option, none, some, List, [], ◌∷◌,
  ◌++◌, ◌==◌, ltb, leb, if◌then◌else◌, length, take, any, filter,
}
use disaster_alert.Prelude.Int.{ℤ}
use disaster_alert.Text.{Text, text_eq}
use disaster_alert.Event.{DisasterCategory, earthquake_report, DisasterEvent, category_eq}
use disaster_alert.Event.Digest.{Platform, as_bytes}
use disaster_alert.Event.Time.{parse_event_epoch}
use disaster_alert.Incident.{IncidentId}
use disaster_alert.Incident.Record.{IncidentRecord}
use disaster_alert.Storage.{
  Store, MatchJob, StoredDelivery, Codec, Error, alias_taken, alias_orphaned, alias_mismatch,
  correlation_orphaned, correlation_mismatch, pending_overflow, Result, ok, err, ◌>>=◌, ◌>>◌,
  ensure, or_error, encode,
}
use disaster_alert.Storage.Keyspace.{Map, get, insert, remove, nat_key, text_key}
use disaster_alert.Storage.Correlation.{
  is_earthquake, incident_alias, incident_reverse_prefix, incident_alias_reverse_key,
  correlation_key, correlation_stream, correlation_reverse_key,
}

-- `slice::starts_with`.
unfoldable pub starts_with : Text → Text → Bool
unfolding text_eq
starts_with key prefix = text_eq (take (length prefix) key) prefix

-- The entries that `Keyspace::prefix` walks through.
unfoldable pub prefix_scan {ℓ} : {V : Type ℓ} → List (Text × V) → Text → List (Text × V)
unfolding starts_with filter
prefix_scan m prefix = filter (λ entry. starts_with entry.0 prefix) m

-- Whether the ledger holds a delivery for an incident.
unfoldable pub ledger_present : Store → IncidentId → Bool
unfolding prefix_scan as_bytes
ledger_present s id = ltb 0 (length (prefix_scan s.ledger (as_bytes id)))

unfoldable pub is_earthquake_report_catalog : DisasterCategory → Bool
is_earthquake_report_catalog category = category_eq category earthquake_report

unfoldable pub keep_unmatched_incident : IncidentRecord → DisasterEvent → Bool → Bool → Bool
unfolding is_earthquake_report_catalog category_eq
keep_unmatched_incident incident event already_stored in_ledger =
    incident.has_matched_subscribers
    || ltb 0 incident.pending_match_jobs
    || in_ledger
    || (is_earthquake_report_catalog incident.category
        && (already_stored || (not event.training && not event.cancel)))

unfoldable pub keep_incident_after_empty_match : IncidentRecord → Bool → Bool
unfolding is_earthquake_report_catalog category_eq
keep_incident_after_empty_match incident in_ledger =
    incident.has_matched_subscribers
    || ltb 0 incident.pending_match_jobs
    || in_ledger
    || is_earthquake_report_catalog incident.category

-- Entries of the reverse index, each a key with the key that it stands for, are taken out of both.
remove_aliases : Store → IncidentId → List (Text × Text) → Store → Result Store
unfolding get remove text_eq
remove_aliases s id [] w = ok w
remove_aliases s id ((reverse_key, alias) ∷ entries) w = do
  current ← or_error (get s.incident_aliases alias) alias_orphaned
  ensure (text_eq current id) alias_mismatch
  remove_aliases s id entries (record w {
    incident_aliases = remove w.incident_aliases alias;
    incident_aliases_by_incident = remove w.incident_aliases_by_incident reverse_key;
  })

remove_correlations : Store → IncidentId → List (Text × Text) → Store → Result Store
unfolding get remove text_eq
remove_correlations s id [] w = ok w
remove_correlations s id ((reverse_key, key) ∷ entries) w = do
  current ← or_error (get s.incident_correlation key) correlation_orphaned
  ensure (text_eq current id) correlation_mismatch
  remove_correlations s id entries (record w {
    incident_correlation = remove w.incident_correlation key;
    incident_correlation_by_incident = remove w.incident_correlation_by_incident reverse_key;
  })

-- `remove_incident_indexes`: the reads are of `s`, and the writes go to the batch `w`.
unfoldable pub remove_incident_indexes : Store → IncidentId → Store → Result Store
unfolding prefix_scan incident_reverse_prefix remove_aliases remove_correlations
remove_incident_indexes s id w = do
  w' ←
      remove_aliases s id (prefix_scan s.incident_aliases_by_incident (incident_reverse_prefix id))
        w
  remove_correlations s id
      (prefix_scan s.incident_correlation_by_incident (incident_reverse_prefix id)) w'

-- What the stored record keeps against the record that a report has been applied to.
unfoldable pub merge_stored : Option IncidentRecord → IncidentRecord → IncidentRecord
merge_stored none incident = incident
merge_stored (some current) incident = record incident {
  has_matched_subscribers = incident.has_matched_subscribers || current.has_matched_subscribers;
  pending_match_jobs = current.pending_match_jobs;
}

-- One more pending job, if there is one; the count is a `u32`.
unfoldable pub add_pending : Option MatchJob → IncidentRecord → Result IncidentRecord
add_pending none incident = ok incident
add_pending (some job) incident =
    if ltb incident.pending_match_jobs (2 ^ 32 - 1)
    then ok (record incident { pending_match_jobs = incident.pending_match_jobs + 1 })
    else err pending_overflow

unfoldable pub is_some {ℓ} : {A : Type ℓ} → Option A → Bool
is_some none = false
is_some (some a) = true

-- The branch that throws an unmatched incident away.
unfoldable pub discard_incident : Option IncidentRecord → ℕ → Store → Result Store
unfolding remove_incident_indexes remove
discard_incident none inbox_id s = ok (record s { inbox = remove s.inbox inbox_id })
discard_incident (some existing) inbox_id s = do
  w ← remove_incident_indexes s existing.id s
  ok (record w { incidents = remove w.incidents existing.id; inbox = remove w.inbox inbox_id })

module _ (p : Platform) (c : Codec) where
  -- No key of the incident is an alias of another incident.
  check_aliases : Store → IncidentId → List Text → Result (Unit {0})
  unfolding incident_alias get text_eq
  check_aliases s id [] = ok tt
  check_aliases s id (key ∷ keys) = elim (get s.incident_aliases (incident_alias p key)) [
    | none ↦ check_aliases s id keys
    | some existing ↦ ensure (text_eq existing id) alias_taken >> check_aliases s id keys
  ]

  insert_aliases : IncidentId → List Text → Store → Store
  unfolding incident_alias insert incident_alias_reverse_key
  insert_aliases id [] w = w
  insert_aliases id (key ∷ keys) w =
      let alias = incident_alias p key in
      insert_aliases id keys (record w {
        incident_aliases = insert w.incident_aliases alias id;
        incident_aliases_by_incident =
            insert w.incident_aliases_by_incident (incident_alias_reverse_key id alias) alias;
      })

  insert_correlation : IncidentId → DisasterEvent → Store → Store → Store
  unfolding is_earthquake parse_event_epoch correlation_stream correlation_reverse_key
      correlation_key get insert remove
  insert_correlation id event s w =
      if is_earthquake event.category
      then elim (parse_event_epoch event) [
        | none ↦ w
        | some occurred_epoch ↦
            let stream = correlation_stream p event in
            let reverse_key = correlation_reverse_key id stream in
            let key = correlation_key occurred_epoch id stream in
            let kept : Map Text IncidentId =
              elim (get s.incident_correlation_by_incident reverse_key) [
                | none ↦ w.incident_correlation
                | some previous ↦ remove w.incident_correlation previous
              ] in
            record w {
              incident_correlation = insert kept key id;
              incident_correlation_by_incident =
                  insert w.incident_correlation_by_incident reverse_key key;
            }
      ]
      else w

  -- The job and its event, if there is one.
  unfoldable pub insert_job : Option MatchJob → DisasterEvent → Store → Result Store
  unfolding encode insert
  insert_job none event w = ok w
  insert_job (some job) event w = do
    encode (c.event event)
    encode (c.match_job job)
    ok (record w {
      events = insert w.events job.event_revision event;
      match_jobs = insert w.match_jobs job.id job;
    })

  -- The indexes of a stored incident, and the end of its inbox item.
  unfoldable pub index_incident : IncidentRecord → DisasterEvent → ℕ → Store → Store → Store
  unfolding insert_aliases insert_correlation remove
  index_incident incident event inbox_id s w =
      let w' =
        insert_correlation incident.id event s
          (insert_aliases incident.id incident.source_event_keys w) in
      record w' { inbox = remove w'.inbox inbox_id }

  -- The branch that stores the incident.
  unfoldable pub store_incident :
      IncidentRecord → DisasterEvent → Option MatchJob → ℕ → Store → Result Store
  unfolding check_aliases encode insert insert_job index_incident
  store_incident incident event job inbox_id s = do
    check_aliases s incident.id incident.source_event_keys
    encode (c.incident incident)
    w ← insert_job job event (record s { incidents = insert s.incidents incident.id incident })
    ok (index_incident incident event inbox_id s w)

  unfoldable pub commit_incident :
      IncidentRecord → DisasterEvent → Option MatchJob → ℕ → Store → Result Store
  unfolding get merge_stored add_pending ledger_present keep_unmatched_incident is_some
      discard_incident store_incident
  commit_incident transition event job inbox_id s =
      let existing = get s.incidents transition.id in
      do
        incident ← add_pending job (merge_stored existing transition)
        (if not (is_some job)
              && not (
                  keep_unmatched_incident incident event (is_some existing)
                    (ledger_present s incident.id))
            then discard_incident existing inbox_id s
            else store_incident incident event job inbox_id s)
