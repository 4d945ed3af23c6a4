-- ===== src/Storage/Incidents/Pending.antt =====
-- The count of pending match jobs that each incident carries.
use disaster_alert.Prelude.{ℕ, ◌+◌, ◌≡◌, refl, Bool, Option, none, some, ◌∙◌, inl, inr, arith, ap}
use disaster_alert.Text.{text_eq, text_eq_iff}
use disaster_alert.Event.{DisasterEvent}
use disaster_alert.Event.Digest.{Platform}
use disaster_alert.Incident.{IncidentId}
use disaster_alert.Incident.Record.{IncidentRecord}
use disaster_alert.Storage.{Store, MatchJob, Codec, ok}
use disaster_alert.Storage.Keyspace.{
  get, insert, remove, nat_key, text_key, count, Distinct, insert-Distinct, count-insert,
  get-remove,
}
use disaster_alert.Storage.Incidents.Records.{
  job_count, add_pending-ok, jobs_after, get-insert_text, store_incident-ok, commit_incident-cases,
  discard_incident-ok,
}
use disaster_alert.Storage.Incidents.{
  merge_stored, discard_incident, store_incident, commit_incident,
}

-- The jobs of an incident.
abbrev pub job_of : IncidentId → MatchJob → Bool
job_of id j = text_eq j.incident_id id

unfoldable pub pending_of : Option IncidentRecord → ℕ
pending_of none = 0
pending_of (some r) = r.pending_match_jobs

-- Every incident counts its jobs, and everything stands under its own key.
pub record IsCounted (s : Store) : Type 0 where
  pub incident_ids :
      (id : IncidentId) (r : IncidentRecord) → get s.incidents id ≡ some r → r.id ≡ id
  pub jobs_distinct : Distinct s.match_jobs
  pub counted : (id : IncidentId) → pending_of (get s.incidents id) ≡ count (job_of id) s.match_jobs

-- A job that may be committed with a report about an incident.
abbrev pub IsFresh : Store → IncidentId → Option MatchJob → Type 0
IsFresh s id none = Unit {0}
IsFresh s id (some j) = (get s.match_jobs j.id ≡ none) × (j.incident_id ≡ id)

-- A store with one incident more or changed, and perhaps its job.
IsCounted-insert :
    (s : Store) (r : IncidentRecord) (j : Option MatchJob) (s' : Store)
    → IsCounted s
    → IsFresh s r.id j
    → r.pending_match_jobs ≡ pending_of (get s.incidents r.id) + job_count j
    → s'.incidents ≡ insert s.incidents r.id r
    → s'.match_jobs ≡ jobs_after j s.match_jobs
    → IsCounted s'
unfolding pending_of job_count
IsCounted-insert s r none s' inv fresh e i m = record {
  incident_ids = λ id q h.
      ground (
        arith,
        i,
        get-insert_text s.incidents r.id id r,
        text_eq_iff r.id id,
        inv.incident_ids id q,
      );
  jobs_distinct = rw m inv.jobs_distinct;
  counted = λ id.
      ground (arith, i, get-insert_text s.incidents r.id id r, text_eq_iff r.id id, inv.counted id);
}
IsCounted-insert s r (some j) s' inv fresh e i m = record {
  incident_ids = λ id q h.
      ground (
        arith,
        i,
        get-insert_text s.incidents r.id id r,
        text_eq_iff r.id id,
        inv.incident_ids id q,
      );
  jobs_distinct = rw m (insert-Distinct s.match_jobs j.id j inv.jobs_distinct);
  counted = λ id. ground (
    arith,
    i,
    get-insert_text s.incidents r.id id r,
    text_eq_iff r.id id,
    inv.counted id,
    count-insert (job_of id) s.match_jobs j.id j,
  );
}

pub IsCounted-same :
    (s s' : Store)
    → IsCounted s
    → s'.incidents ≡ s.incidents
    → s'.match_jobs ≡ s.match_jobs
    → IsCounted s'
IsCounted-same s s' inv i m = record {
  incident_ids = λ id q h. inv.incident_ids id q (rw (← i) h);
  jobs_distinct = rw m inv.jobs_distinct;
  counted = λ id. rw (i, m) (inv.counted id);
}

IsCounted-discard :
    (s : Store) (key : IncidentId) (r : IncidentRecord) (s' : Store)
    → IsCounted s
    → get s.incidents key ≡ some r
    → r.pending_match_jobs ≡ 0
    → s'.incidents ≡ remove s.incidents key
    → s'.match_jobs ≡ s.match_jobs
    → IsCounted s'
unfolding pending_of
IsCounted-discard s key r s' inv here zero i m = record {
  incident_ids = λ id q h.
      ground (arith, i, get-remove s.incidents key id, text_eq_iff key id, inv.incident_ids id q);
  jobs_distinct = rw m inv.jobs_distinct;
  counted =
      λ id. ground (arith, i, get-remove s.incidents key id, text_eq_iff key id, inv.counted id);
}

module _ (p : Platform) (c : Codec) where
  store_incident-IsCounted :
      (s : Store) (r : IncidentRecord) (e : DisasterEvent) (job : Option MatchJob) (inbox_id : ℕ)
      (s' : Store)
      → IsCounted s
      → IsFresh s r.id job
      → r.pending_match_jobs ≡ pending_of (get s.incidents r.id) + job_count job
      → store_incident p c r e job inbox_id s ≡ ok s'
      → IsCounted s'
  unfolding store_incident
  store_incident-IsCounted s r e job inbox_id s' inv fresh h run =
      let (i, m, _, _, _) = store_incident-ok p c s r e job inbox_id s' run in
      IsCounted-insert s r job s' inv fresh h i m

  merge_stored-fields :
      (stored : Option IncidentRecord) (r : IncidentRecord)
      → (stored ≡ none → r.pending_match_jobs ≡ 0)
      → ((merge_stored stored r).id ≡ r.id)
        × ((merge_stored stored r).pending_match_jobs ≡ pending_of stored)
  unfolding merge_stored pending_of
  merge_stored-fields none r h = (refl, h refl)
  merge_stored-fields (some current) r h = (refl, refl)

  kept-IsCounted :
      (s : Store) (id : IncidentId) (q : IncidentRecord) (e : DisasterEvent) (job : Option MatchJob)
      (inbox_id : ℕ) (s' : Store)
      → IsCounted s
      → IsFresh s id job
      → q.id ≡ id
      → q.pending_match_jobs ≡ pending_of (get s.incidents id) + job_count job
      → store_incident p c q e job inbox_id s ≡ ok s'
      → IsCounted s'
  kept-IsCounted s id q e job inbox_id s' inv fresh same n run =
      store_incident-IsCounted s q e job inbox_id s' inv (rw same fresh) (rw same n) run

  gone-IsCounted :
      (s : Store) (id : IncidentId) (stored : Option IncidentRecord) (inbox_id : ℕ) (s' : Store)
      → IsCounted s
      → get s.incidents id ≡ stored
      → pending_of stored ≡ 0
      → discard_incident stored inbox_id s ≡ ok s'
      → IsCounted s'
  unfolding pending_of
  gone-IsCounted s id none inbox_id s' inv found zero run =
      let (i, m, _, _, _) = discard_incident-ok p c none inbox_id s s' run in
      IsCounted-same s s' inv i m
  gone-IsCounted s id (some old) inbox_id s' inv found zero run =
      let (i, m, _, _, _) = discard_incident-ok p c (some old) inbox_id s s' run in
      IsCounted-discard s id old s' inv found zero
        (i ∙ ap (remove s.incidents) (inv.incident_ids id old found)) m

  -- Where every incident counts its jobs, the job is new and about the incident, and an incident
  -- that is not stored yet has no pending jobs, a commit of the incident that succeeds leaves
  -- every incident's count equal to the number of its jobs.
  pub commit_incident-IsCounted :
      (s : Store) (r : IncidentRecord) (e : DisasterEvent) (job : Option MatchJob) (inbox_id : ℕ)
      (s' : Store)
      → IsCounted s
      → IsFresh s r.id job
      → (get s.incidents r.id ≡ none → r.pending_match_jobs ≡ 0)
      → commit_incident p c r e job inbox_id s ≡ ok s'
      → IsCounted s'
  unfolding commit_incident
  commit_incident-IsCounted s r e job inbox_id s' inv fresh h run =
      let stored = get s.incidents r.id in
      let (q, h1, cases) = commit_incident-cases p c s r e job inbox_id s' run in
      let (i1, n1) = merge_stored-fields stored r h in
      let (i2, n2) = add_pending-ok job (merge_stored stored r) q h1 in
      elim cases [
        | inl kept ↦
            kept-IsCounted s r.id q e job inbox_id s' inv fresh (i2 ∙ i1)
              (n2 ∙ ap (λ n. n + job_count job) n1) kept
        | inr (none_job, zero, gone) ↦
            gone-IsCounted s r.id stored inbox_id s' inv refl (ground (arith, n1, n2, zero)) gone
      ]
