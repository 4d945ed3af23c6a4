-- ===== src/Storage/MatchOutput/Settling.antt =====
-- What the commit of a match job's output leaves of the jobs and of their counts.
use disaster_alert.Prelude.{
  ℕ, ◌+◌, ◌-◌, ◌≡◌, ◌≢◌, refl, Bool, true, not, ◌&&◌, ◌||◌, Option, none, some, List, [], ◌∷◌, ◌∙◌,
  ◌==◌, sym, ==_iff, ltb, if◌then◌else◌, length, Bool-cases, inl, inr, arith, ap, ◌⊎◌,
}
use disaster_alert.Text.{text_eq_iff, text_eq_refl}
use disaster_alert.Incident.Record.{IncidentRecord}
use disaster_alert.Delivery.{DeliveryBatch, DeliveryRow}
use disaster_alert.Storage.{
  Store, MatchJob, Codec, Error, ok, ensure, or_error, encode, delivery_batch_key,
}
use disaster_alert.Storage.Keyspace.{
  get, insert, remove, nat_key, pair_key, text_key, remove-Distinct, count-remove, get-remove,
  get-remove_self,
}
use disaster_alert.Storage.Incidents.{
  remove_incident_indexes, keep_incident_after_empty_match, ledger_present,
}
use disaster_alert.Storage.Incidents.Records.{
  bind-ok, ensure-ok, SameRecords, SameRecords-trans, remove_incident_indexes-SameRecords,
  get-insert_text,
}
use disaster_alert.Storage.Incidents.Pending.{IsCounted, job_of, pending_of}
use disaster_alert.Storage.MatchOutput.{
  insert_destinations, insert_batches, settle_incident, settle_found, commit_match_batches,
  commit_checked, check_batches,
}

insert_destinations-SameRecords :
    (id index : ℕ) (rows : List DeliveryRow) (w : Store)
    → SameRecords w (insert_destinations id index rows w)
unfolding insert_destinations
insert_destinations-SameRecords id index [] w = ground arith
insert_destinations-SameRecords id index (row ∷ rows) w =
    insert_destinations-SameRecords id (index + 1) rows _

insert_batches-SameRecords :
    (bs : List DeliveryBatch) (w : Store) → SameRecords w (insert_batches bs w)
unfolding insert_batches
insert_batches-SameRecords [] w = ground arith
insert_batches-SameRecords (b ∷ bs) w =
    let w1 = record w {
      delivery_batches = insert w.delivery_batches (delivery_batch_key 0 b.id) b;
    } in
    let w2 = insert_destinations b.id 0 b.rows w1 in
    SameRecords-trans w w2 (insert_batches bs w2) (insert_destinations-SameRecords b.id 0 b.rows w1)
      (insert_batches-SameRecords bs w2)

-- The record of an incident with one pending job less is stored, or is gone when nothing was pending.
Settled : Store → IncidentRecord → Store → Type 0
Settled w stored w' =
    (stored.pending_match_jobs ≢ 0)
    × (w'.match_jobs ≡ w.match_jobs)
    × (((stored.pending_match_jobs ≡ 1) × (w'.incidents ≡ remove w.incidents stored.id))
        ⊎ ((r : IncidentRecord) × (r.id ≡ stored.id)
            × (r.pending_match_jobs ≡ stored.pending_match_jobs - 1)
            × (w'.incidents ≡ insert w.incidents stored.id r)))

module _ (c : Codec) where
  unkept :
      (r : IncidentRecord) (in_ledger no_batches : Bool)
      → no_batches && not (keep_incident_after_empty_match r in_ledger) ≡ true
      → r.pending_match_jobs ≡ 0
  unfolding keep_incident_after_empty_match
  unkept r in_ledger no_batches h = ground arith

  settle_incident-Settled :
      (s : Store) (stored : IncidentRecord) (no_batches : Bool) (w w' : Store)
      → settle_incident c s stored no_batches w ≡ ok w'
      → Settled w stored w'
  unfolding settle_incident Settled
  settle_incident-Settled s stored no_batches w w' run =
      let (_, h, run1) =
        bind-ok (ensure (ltb 0 stored.pending_match_jobs) Error.pending_missing) _ run in
      let positive = ensure-ok _ _ _ h in
      let r : IncidentRecord = record stored {
        pending_match_jobs = stored.pending_match_jobs - 1;
      } in
      let gone = no_batches && not (keep_incident_after_empty_match r (ledger_present s r.id)) in
      elim (Bool-cases gone) [
        | inl g ↦
            let (v, hv, e) = bind-ok (remove_incident_indexes s stored.id w) _ (rw g at run1) in
            let same = remove_incident_indexes-SameRecords s stored.id w v hv in
            (
              ground (arith, positive),
              ground (arith, same, e),
              inl (
                ground (arith, positive, unkept r (ledger_present s r.id) no_batches g),
                ground (arith, same, e),
              ),
            )
        | inr k ↦
            let r' : IncidentRecord = record r {
              has_matched_subscribers = r.has_matched_subscribers || not no_batches;
            } in
            let (_, _, e) = bind-ok (encode (c.incident r')) _ (rw k at run1) in
            (ground (arith, positive), ground (arith, e), inr (r', refl, refl, ground (arith, e)))
      ]

  -- Removing a job with one off the count of its incident.
  settled-IsCounted :
      (s : Store) (job : MatchJob) (stored : IncidentRecord) (s' : Store)
      → IsCounted s
      → get s.match_jobs job.id ≡ some job
      → get s.incidents job.incident_id ≡ some stored
      → s'.match_jobs ≡ remove s.match_jobs job.id
      → (((stored.pending_match_jobs ≡ 1) × (s'.incidents ≡ remove s.incidents job.incident_id))
          ⊎ ((r : IncidentRecord) × (r.id ≡ job.incident_id)
              × (r.pending_match_jobs ≡ stored.pending_match_jobs - 1)
              × (s'.incidents ≡ insert s.incidents job.incident_id r)))
      → IsCounted s'
  unfolding pending_of
  settled-IsCounted s job stored s' inv there here m (inl (one, i)) = record {
    incident_ids = λ id q h. ground (
      arith,
      i,
      get-remove s.incidents job.incident_id id,
      text_eq_iff job.incident_id id,
      inv.incident_ids id q,
    );
    jobs_distinct = rw m (remove-Distinct s.match_jobs job.id inv.jobs_distinct);
    counted = λ id. ground (
      arith,
      i,
      get-remove s.incidents job.incident_id id,
      text_eq_iff job.incident_id id,
      inv.counted id,
      count-remove (job_of id) s.match_jobs job.id job inv.jobs_distinct there,
    );
  }
  settled-IsCounted s job stored s' inv there here m (inr (r, same, less, i)) = record {
    incident_ids = λ id q h. ground (
      arith,
      i,
      get-insert_text s.incidents job.incident_id id r,
      text_eq_iff job.incident_id id,
      inv.incident_ids id q,
    );
    jobs_distinct = rw m (remove-Distinct s.match_jobs job.id inv.jobs_distinct);
    counted = λ id. ground (
      arith,
      i,
      get-insert_text s.incidents job.incident_id id r,
      text_eq_iff job.incident_id id,
      inv.counted id,
      count-remove (job_of id) s.match_jobs job.id job inv.jobs_distinct there,
    );
  }

  pub or_error-ok :
      {A : Type 0} (m : Option A) (e : Error) (a : A) → or_error m e ≡ ok a → m ≡ some a
  or_error-ok none e a h = cc
  or_error-ok (some b) e a h = ground arith

  pub count-positive :
      (s : Store) (job : MatchJob)
      → IsCounted s
      → get s.match_jobs job.id ≡ some job
      → pending_of (get s.incidents job.incident_id) ≢ 0
  count-positive s job inv there = ground (
    arith,
    inv.counted job.incident_id,
    count-remove (job_of job.incident_id) s.match_jobs job.id job inv.jobs_distinct there,
    text_eq_refl job.incident_id,
  )

  pending_of-none : pending_of none ≡ 0
  unfolding pending_of
  pending_of-none = refl

  finished-IsCounted :
      (s : Store) (job : MatchJob) (found : Option IncidentRecord) (start w s' : Store)
      (no_batches : Bool)
      → IsCounted s
      → get s.match_jobs job.id ≡ some job
      → get s.incidents job.incident_id ≡ found
      → start.incidents ≡ s.incidents
      → start.match_jobs ≡ s.match_jobs
      → settle_found c s found no_batches start ≡ ok w
      → s'.incidents ≡ w.incidents
      → s'.match_jobs ≡ remove w.match_jobs job.id
      → IsCounted s'
  unfolding settle_found Settled
  finished-IsCounted s job none start w s' no_batches inv there here i0 m0 run i m =
      absurd (count-positive s job inv there (ap pending_of here ∙ pending_of-none))
  finished-IsCounted s job (some stored) start w s' no_batches inv there here i0 m0 run i m =
      let (_, m1, cases) = settle_incident-Settled s stored no_batches start w run in
      let same = inv.incident_ids job.incident_id stored here in
      settled-IsCounted s job stored s' inv there here (ground (arith, m, m1, m0)) (elim cases [
        | inl (one, gone) ↦ inl (one, ground (arith, i, gone, same, i0))
        | inr (r, id, less, kept) ↦ inr (r, id ∙ same, less, ground (arith, i, kept, same, i0))
      ])

  commit_checked-IsCounted :
      (job_id : ℕ) (job : MatchJob) (batches : List DeliveryBatch) (s s' : Store)
      → IsCounted s
      → get s.match_jobs job_id ≡ some job
      → job.id ≡ job_id
      → commit_checked c job_id job batches s ≡ ok s'
      → IsCounted s' × (get s'.match_jobs job_id ≡ none)
  unfolding commit_checked
  commit_checked-IsCounted job_id job batches s s' inv there same run =
      let no_batches = length batches == 0 in
      let start : Store =
        if no_batches then (record s { events = remove s.events job.event_revision }) else s in
      let start_same : (b : Bool)
          → let t : Store =
              if b then (record s { events = remove s.events job.event_revision }) else s in
            (t.incidents ≡ s.incidents) × (t.match_jobs ≡ s.match_jobs) =
        λ b. ground arith in
      let (w, h, e) =
        bind-ok (settle_found c s (get s.incidents job.incident_id) no_batches start) _ run in
      let same_records = insert_batches-SameRecords batches w in
      let i : s'.incidents ≡ w.incidents = ground (arith, e, same_records) in
      let m : s'.match_jobs ≡ remove w.match_jobs job_id = ground (arith, e, same_records) in
      (
        finished-IsCounted s job (get s.incidents job.incident_id) start w s' no_batches inv
            (ap (get s.match_jobs) same ∙ there) refl (start_same no_batches).0
            (start_same no_batches).1 h i (m ∙ ap (remove w.match_jobs) (sym same)),
        ap (λ jobs. get jobs job_id) m ∙ get-remove_self w.match_jobs job_id,
      )

  -- Where every incident counts its jobs, a commit of a job's output that succeeds takes the job
  -- out of the store and leaves every incident's count equal to the number of its jobs.
  pub commit_match_batches-IsCounted :
      (job_id : ℕ) (batches : List DeliveryBatch) (s s' : Store)
      → IsCounted s
      → commit_match_batches c job_id batches s ≡ ok s'
      → IsCounted s' × (get s'.match_jobs job_id ≡ none)
  unfolding commit_match_batches
  commit_match_batches-IsCounted job_id batches s s' inv run =
      let (job, h1, run1) = bind-ok (or_error (get s.match_jobs job_id) Error.job_missing) _ run in
      let (_, h2, run2) = bind-ok (ensure (job.id == job_id) Error.job_mismatch) _ run1 in
      let (event, h3, run3) =
        bind-ok (or_error (get s.events job.event_revision) Error.event_missing) _ run2 in
      let (_, h4, run4) = bind-ok (check_batches c s job event.category [] batches) _ run3 in
      commit_checked-IsCounted job_id job batches s s' inv
        (or_error-ok (get s.match_jobs job_id) _ job h1) ((==_iff _ _).0 (ensure-ok _ _ _ h2)) run4
