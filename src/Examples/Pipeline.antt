-- ===== src/Examples/Pipeline.antt =====
-- The theorems on the store and on the coordinator at small stores.
use disaster_alert.Prelude.{◌≡◌, ◌⊎◌, refl, none, some, [], ◌∷◌, arith}
use disaster_alert.Prelude.Int.{pos}
use disaster_alert.Text.{text, text_eq_iff}
use disaster_alert.Event.{ProviderChannel, event_key}
use disaster_alert.Incident.{IncidentId, derive}
use disaster_alert.Incident.Record.{IncidentRecord, new}
use disaster_alert.Storage.{Store, MatchJob, InboxItem, ok, empty_store}
use disaster_alert.Storage.Keyspace.{get, count, Distinct, nat_key, text_key}
use disaster_alert.Storage.Correlation.{resolve_incident}
use disaster_alert.Storage.Correlation.Resolution.{Stored, resolve_incident-Stored}
use disaster_alert.Storage.Incidents.{commit_incident}
use disaster_alert.Storage.Incidents.Pending.{
  IsCounted, job_of, pending_of, commit_incident-IsCounted,
}
use disaster_alert.Prelude.{inl, ◌≤◌, ℕ, length, ◌==◌}
use disaster_alert.Storage.MatchOutput.Checks.{Acceptable, batch_times}
use disaster_alert.Storage.MatchOutput.Completion.{
  Completed, Settles, commit_match_batches_completes,
}
use disaster_alert.Storage.MatchOutput.{batch_exists, commit_match_batches}
use disaster_alert.Examples.Deliveries.{batch}
use disaster_alert.Storage.MatchOutput.Settling.{commit_match_batches-IsCounted}
use disaster_alert.Events.{process_next, default_policy}
use disaster_alert.Events.Consumption.{Drained, process_next_consumes}
use disaster_alert.Events.Jobs.{IsConsistent}
use disaster_alert.Events.Consistency.{process_next-IsConsistent}
use disaster_alert.Examples.{plain, no_floats, small, first_report, first_incident, stored}

abbrev item : InboxItem
item = record {
  id = 1;
  provider = ProviderChannel.wolfx;
  received_at_ms = pos 900;
  event = first_report;
}

abbrev waiting : Store
waiting = record empty_store { inbox = (1, item) ∷ [] }

waiting-IsCounted : IsCounted waiting
unfolding get pending_of count
waiting-IsCounted = record {
  incident_ids = λ id r h. ground arith;
  jobs_distinct = tt;
  counted = λ id. refl;
}

waiting-IsConsistent : IsConsistent waiting
unfolding get
waiting-IsConsistent = record { is_counted = waiting-IsCounted; below = λ id h. refl }

process_next-IsConsistent_example :
    IsConsistent (process_next plain no_floats small default_policy (pos 1000) waiting).1
process_next-IsConsistent_example =
    process_next-IsConsistent plain no_floats small default_policy (pos 1000) waiting
      waiting-IsConsistent

waiting-Distinct : Distinct waiting.inbox
unfolding get
waiting-Distinct = (refl, tt)

process_next_consumes_example :
    Drained [] waiting (process_next plain no_floats small default_policy (pos 1000) waiting)
process_next_consumes_example =
    process_next_consumes plain no_floats small default_policy (pos 1000) waiting item [] refl
      waiting-Distinct

abbrev job : MatchJob
job = record {
  id = 1;
  incident_id = text "incident_1";
  event_revision = 1;
  created_at_ms = pos 1000;
}

fresh_job : (get waiting.match_jobs 1 ≡ none) × (text "incident_1" ≡ first_incident.id)
unfolding get new
fresh_job = (refl, refl)

no_jobs : get waiting.incidents first_incident.id ≡ none → first_incident.pending_match_jobs ≡ 0
unfolding new
no_jobs h = refl

committed-job :
    commit_incident plain small first_incident first_report (some job) 1 waiting
    ≡ ok (stored (commit_incident plain small first_incident first_report (some job) 1 waiting))
unfolding commit_incident new
committed-job = refl

commit_incident-IsCounted_example :
    IsCounted
      (stored (commit_incident plain small first_incident first_report (some job) 1 waiting))
commit_incident-IsCounted_example =
    commit_incident-IsCounted plain small waiting first_incident first_report (some job) 1
      (stored (commit_incident plain small first_incident first_report (some job) 1 waiting))
      waiting-IsCounted fresh_job no_jobs committed-job

abbrev one_pending : IncidentRecord
one_pending = record first_incident { pending_match_jobs = 1 }

abbrev matching : Store
matching = record empty_store {
  incidents = (text "incident_1", one_pending) ∷ [];
  events = (1, first_report) ∷ [];
  match_jobs = (1, job) ∷ [];
}

matching-counted :
    (id : IncidentId)
    → pending_of (get matching.incidents id) ≡ count (job_of id) matching.match_jobs
unfolding get pending_of count
matching-counted id = ground arith

matching-IsCounted : IsCounted matching
unfolding get new
matching-IsCounted = record {
  incident_ids = λ id r h. ground (arith, text_eq_iff (text "incident_1") id);
  jobs_distinct = (refl, tt);
  counted = matching-counted;
}

finished-job :
    commit_match_batches small 1 [] matching
    ≡ ok (stored (commit_match_batches small 1 [] matching))
unfolding commit_match_batches new
finished-job = refl

commit_match_batches-IsCounted_example :
    IsCounted (stored (commit_match_batches small 1 [] matching))
    × (get (stored (commit_match_batches small 1 [] matching)).match_jobs 1 ≡ none)
commit_match_batches-IsCounted_example =
    commit_match_batches-IsCounted small 1 [] matching
      (stored (commit_match_batches small 1 [] matching)) matching-IsCounted finished-job

new_incident :
    resolve_incident plain no_floats waiting first_report
    ≡ ok (derive plain (event_key first_report))
unfolding resolve_incident derive event_key
new_incident = refl

resolve_incident-Stored_example :
    Stored waiting (derive plain (event_key first_report))
    ⊎ (derive plain (event_key first_report) ≡ derive plain (event_key first_report))
resolve_incident-Stored_example =
    resolve_incident-Stored plain no_floats waiting first_report
      (derive plain (event_key first_report)) new_incident

matching-job : get matching.match_jobs 1 ≡ some job
unfolding get
matching-job = refl

matching-event : get matching.events 1 ≡ some first_report
unfolding get
matching-event = refl

batch-Acceptable : Acceptable small matching job first_report batch
unfolding batch_exists get
batch-Acceptable = record {
  incident = refl;
  revision = refl;
  category = refl;
  some_rows = omega arith;
  few_rows = omega arith;
  fresh = refl;
  small = omega arith;
}

one_batch : (i : ℕ) → batch_times i (batch ∷ []) ≤ 1
one_batch i = ground arith

matching-Settles :
    (r : IncidentRecord)
    → get matching.incidents (text "incident_1") ≡ some r
    → Settles small (length (batch ∷ []) == 0) r
matching-Settles r h = (omega arith, inl refl)

commit_match_batches_completes_example :
    Completed 1 (batch ∷ []) (commit_match_batches small 1 (batch ∷ []) matching)
commit_match_batches_completes_example =
    commit_match_batches_completes small 1 job first_report (batch ∷ []) matching matching-IsCounted
      matching-job refl matching-event (batch-Acceptable, tt) one_batch matching-Settles
