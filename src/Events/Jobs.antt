-- ===== src/Events/Jobs.antt =====
-- The counts of pending jobs and the identifiers of jobs, through the steps of the coordinator.
use disaster_alert.Prelude.{
  ℕ, ◌<◌, ◌≡◌, refl, Bool, true, false, Option, none, some, List, [], ◌∷◌, ◌∙◌, sym, if◌then◌else◌,
  arith,
}
use disaster_alert.Prelude.Int.{ℤ}
use disaster_alert.Text.{Text, text}
use disaster_alert.Event.{DisasterEvent, event_key}
use disaster_alert.Event.Digest.{Platform}
use disaster_alert.Incident.{
  IncidentId, IncidentApplyOutcome, applied, replay, rejected, capacity_exceeded, should_project,
  derive,
}
use disaster_alert.Incident.Record.{
  IncidentRecord, remember_source_event_keys, new, apply_outcome, applied_record,
}
use disaster_alert.Storage.{Store}
use disaster_alert.Storage.Keyspace.{get, nat_key, text_key}
use disaster_alert.Storage.Ingest.{get_id}
use disaster_alert.Storage.Incidents.Pending.{IsCounted}
use disaster_alert.Events.{Reduction, reduces, refuses, reduce_incident_at, project, remembered}

-- The last identifier that was given to a job.
unfoldable pub job_counter : Store → ℕ
job_counter s = get_id (get s.next_ids (text "match_job"))

-- The counts are right, and no job has an identifier that is still to be given.
pub record IsConsistent (s : Store) : Type 0 where
  pub is_counted : IsCounted s
  pub below : (id : ℕ) → job_counter s < id → get s.match_jobs id ≡ none

-- What a reduction keeps: the identifier of the incident, and its count of jobs.
unfoldable pub Fits : IncidentId → Option IncidentRecord → Reduction → Type 0
Fits id current (refuses limit) = Unit {0}
Fits id current (reduces t) =
    (t.incident.id ≡ id) × (current ≡ none → t.incident.pending_match_jobs ≡ 0)

pub some-not-none : {A : Type 0} {a : A} → some a ≡ none → ⊥
some-not-none h = cc

module _ (p : Platform) (e : DisasterEvent) (now_ms : ℤ) where
  remember-fields :
      (r r' : IncidentRecord) (keys : List Text) (changed : Bool)
      → remember_source_event_keys r keys ≡ some (r', changed)
      → (r'.id ≡ r.id) × (r'.pending_match_jobs ≡ r.pending_match_jobs)
  unfolding remember_source_event_keys
  remember-fields r r' keys changed h = ground arith

  remembered-Fits :
      (id : IncidentId) (current : Option IncidentRecord) (result : IncidentApplyOutcome)
      (r : IncidentRecord) (x : Option (IncidentRecord × Bool))
      → ((r' : IncidentRecord) (changed : Bool)
          → x ≡ some (r', changed)
          → (r'.id ≡ r.id) × (r'.pending_match_jobs ≡ r.pending_match_jobs))
      → r.id ≡ id
      → (current ≡ none → r.pending_match_jobs ≡ 0)
      → Fits id current (remembered p result x)
  unfolding remembered Fits
  remembered-Fits id current result r none h own fresh = tt
  remembered-Fits id current result r (some (r', changed)) h own fresh =
      let (i, n) = h r' changed refl in (i ∙ own, λ none_stored. n ∙ fresh none_stored)

  projected-Fits :
      (id : IncidentId) (current : Option IncidentRecord) (r : IncidentRecord)
      (result : IncidentApplyOutcome) (b : Bool)
      → r.id ≡ id
      → (current ≡ none → r.pending_match_jobs ≡ 0)
      → Fits id current (
          if b
          then remembered p result (remember_source_event_keys r (event_key e ∷ []))
          else reduces (record { incident = r; outcome = result }))
  unfolding Fits
  projected-Fits id current r result true own fresh =
      remembered-Fits id current result r (remember_source_event_keys r (event_key e ∷ []))
        (λ r' changed. remember-fields r r' (event_key e ∷ []) changed) own fresh
  projected-Fits id current r result false own fresh = (own, fresh)

  project-Fits :
      (id : IncidentId) (current : Option IncidentRecord) (r : IncidentRecord)
      (result : IncidentApplyOutcome)
      → r.id ≡ id
      → (current ≡ none → r.pending_match_jobs ≡ 0)
      → Fits id current (project p r result e)
  unfolding project Fits
  project-Fits id current r (capacity_exceeded limit) own fresh = tt
  project-Fits id current r applied own fresh = projected-Fits id current r applied true own fresh
  project-Fits id current r replay own fresh =
      projected-Fits id current r replay (should_project replay) own fresh
  project-Fits id current r rejected own fresh =
      projected-Fits id current r rejected (should_project rejected) own fresh

  applied-fields : (r : IncidentRecord) → ((apply_outcome p r e now_ms).0.id ≡ r.id)
  unfolding apply_outcome applied_record
  applied-fields r = ground arith

  new-fields :
      (id : IncidentId)
      → ((new p id e now_ms).id ≡ id) × ((new p id e now_ms).pending_match_jobs ≡ 0)
  unfolding new
  new-fields id = (refl, refl)

  pub reduce-Fits :
      (id : IncidentId) (current : Option IncidentRecord)
      → (current ≡ none → id ≡ derive p (event_key e))
      → ((r : IncidentRecord) → current ≡ some r → r.id ≡ id)
      → Fits id current (reduce_incident_at p current e now_ms)
  unfolding reduce_incident_at
  reduce-Fits id none new_id own_id =
      let (i, n) = new-fields (derive p (event_key e)) in
      project-Fits id none (new p (derive p (event_key e)) e now_ms) applied (i ∙ sym (new_id refl))
        (λ h. n)
  reduce-Fits id (some r) new_id own_id =
      project-Fits id (some r) (apply_outcome p r e now_ms).0 (apply_outcome p r e now_ms).1
        (applied-fields r ∙ own_id r refl) (λ h. absurd (some-not-none h))
