-- ===== src/Storage/MatchOutput/Completion.antt =====
-- When the commit of a match job's output succeeds.
use disaster_alert.Event.{DisasterEvent}
use disaster_alert.Storage.MatchOutput.Settling.{count-positive}
use disaster_alert.Prelude.{
  ◌||◌, ◌≤◌, false, leb, ℕ, ◌-◌, ◌≡◌, ◌≢◌, refl, Bool, true, not, ◌&&◌, Option, none, some, List,
  [], ◌∙◌, ◌==◌, ==_iff, ltb, if◌then◌else◌, length, arith, ap, ◌⊎◌, All,
}
use disaster_alert.Incident.Record.{IncidentRecord}
use disaster_alert.Delivery.{DeliveryBatch}
use disaster_alert.Storage.{max_record_bytes, Store, MatchJob, Codec, Result, ok, err, encode}
use disaster_alert.Storage.Keyspace.{get, remove, nat_key, text_key, get-remove_self}
use disaster_alert.Storage.Incidents.{
  is_earthquake_report_catalog, keep_incident_after_empty_match, ledger_present,
}
use disaster_alert.Storage.Incidents.Pending.{IsCounted, pending_of}
use disaster_alert.Storage.MatchOutput.{
  settle_incident, settle_found, commit_match_batches, commit_checked, insert_batches,
}
use disaster_alert.Storage.MatchOutput.Checks.{
  Acceptable, IsPending, batch_times, check_batches-accepts, insert_batches-IsPending,
}

abbrev IsOk {ℓ} : {A : Type ℓ} → Result A → Type 0
IsOk (err e) = ⊥
IsOk (ok a) = Unit {0}

IsOk-some : {A : Type 0} (m : Result A) → IsOk m → (a : A) × (m ≡ ok a)
IsOk-some (err e) h = absurd h
IsOk-some (ok a) h = (a, refl)

-- The job is gone, and each batch stands as pending under its identifier.
abbrev pub Completed : ℕ → List DeliveryBatch → Result Store → Type 0
Completed job_id batches result =
    (s' : Store) × (result ≡ ok s') × (get s'.match_jobs job_id ≡ none) × All (IsPending s') batches

-- The incident with one pending job less.
abbrev settled : Bool → IncidentRecord → IncidentRecord
settled no_batches r = record r {
  pending_match_jobs = r.pending_match_jobs - 1;
  has_matched_subscribers = r.has_matched_subscribers || not no_batches;
}

module _ (c : Codec) where
  -- The incident is short enough to be stored, and there is a batch, or it is of the catalogue.
  abbrev pub Settles : Bool → IncidentRecord → Type 0
  Settles no_batches r =
      (c.incident (settled no_batches r) ≤ max_record_bytes)
      × ((no_batches ≡ false) ⊎ (is_earthquake_report_catalog r.category ≡ true))

  kept_false :
      (r : IncidentRecord) (no_batches in_ledger : Bool)
      → ((no_batches ≡ false) ⊎ (is_earthquake_report_catalog r.category ≡ true))
      → (no_batches && not (keep_incident_after_empty_match r in_ledger)) ≡ false
  unfolding keep_incident_after_empty_match
  kept_false r no_batches in_ledger h = ground arith

  settle_incident-kept :
      (s : Store) (stored : IncidentRecord) (no_batches : Bool) (w : Store)
      → stored.pending_match_jobs ≢ 0
      → ((no_batches ≡ false) ⊎ (is_earthquake_report_catalog stored.category ≡ true))
      → c.incident (settled no_batches stored) ≤ max_record_bytes
      → IsOk (settle_incident c s stored no_batches w)
  unfolding settle_incident encode
  settle_incident-kept s stored no_batches w pending kept fits =
      let r : IncidentRecord = record stored {
        pending_match_jobs = stored.pending_match_jobs - 1;
      } in
      let positive : ltb 0 stored.pending_match_jobs ≡ true = ground (arith, pending) in
      let small : leb (c.incident (settled no_batches stored)) max_record_bytes ≡ true =
        ground (arith, fits) in
      rw (positive, kept_false r no_batches (ledger_present s r.id) kept, small) tt

  settle_found-kept :
      (s : Store) (found : Option IncidentRecord) (no_batches : Bool) (w : Store)
      → pending_of found ≢ 0
      → ((r : IncidentRecord) → found ≡ some r → Settles no_batches r)
      → IsOk (settle_found c s found no_batches w)
  unfolding settle_found pending_of
  settle_found-kept s none no_batches w pending settles = absurd (pending refl)
  settle_found-kept s (some r) no_batches w pending settles =
      let (fits, kept) = settles r refl in settle_incident-kept s r no_batches w pending kept fits

  commit_checked-kept :
      (job_id : ℕ) (job : MatchJob) (batches : List DeliveryBatch) (s : Store)
      → pending_of (get s.incidents job.incident_id) ≢ 0
      → ((r : IncidentRecord)
          → get s.incidents job.incident_id ≡ some r
          → Settles (length batches == 0) r)
      → ((i : ℕ) → batch_times i batches ≤ 1)
      → Completed job_id batches (commit_checked c job_id job batches s)
  unfolding commit_checked
  commit_checked-kept job_id job batches s pending settles once =
      let no_batches = length batches == 0 in
      let start : Store =
        if no_batches then (record s { events = remove s.events job.event_revision }) else s in
      let (w, e) =
        IsOk-some (settle_found c s (get s.incidents job.incident_id) no_batches start) (
          settle_found-kept s (get s.incidents job.incident_id) no_batches start pending settles) in
      let stored = insert_batches batches w in
      rw e (
        record stored { match_jobs = remove stored.match_jobs job_id },
        refl,
        get-remove_self stored.match_jobs job_id,
        insert_batches-IsPending batches w once,
      )

  -- Where every incident counts its jobs, the job and its event are stored, the batches are new,
  -- of the job's incident and event, with one to 2^32 rows, short enough and of distinct
  -- identifiers, the incident's record with one job less is short enough, and there is a batch or
  -- the incident is of the catalogue of earthquake reports: the commit of the job's output
  -- succeeds, takes the job out of the store and leaves each batch pending under its identifier.
  pub commit_match_batches_completes :
      (job_id : ℕ) (job : MatchJob) (event : DisasterEvent) (batches : List DeliveryBatch)
      (s : Store)
      → IsCounted s
      → get s.match_jobs job_id ≡ some job
      → job.id ≡ job_id
      → get s.events job.event_revision ≡ some event
      → All (Acceptable c s job event) batches
      → ((i : ℕ) → batch_times i batches ≤ 1)
      → ((r : IncidentRecord)
          → get s.incidents job.incident_id ≡ some r
          → Settles (length batches == 0) r)
      → Completed job_id batches (commit_match_batches c job_id batches s)
  unfolding commit_match_batches
  commit_match_batches_completes job_id job event batches s inv there same there_event accepted once
        settles =
      rw
        (
          there,
          (==_iff job.id job_id).1 same,
          there_event,
          check_batches-accepts c s job event [] batches accepted (λ i. ground (arith, once i)),
        )
        (commit_checked-kept job_id job batches s
          (count-positive c s job inv (ap (get s.match_jobs) same ∙ there)) settles once)
