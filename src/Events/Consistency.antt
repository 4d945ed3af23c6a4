-- ===== src/Events/Consistency.antt =====
-- A step of the coordinator keeps the counts of pending jobs right.
use disaster_alert.Prelude.{
  ℕ, ◌+◌, ◌≤◌, ◌<◌, ◌≡◌, refl, false, not, Option, none, some, ◌∙◌, sym, ==_iff, Bool-cases, inl,
  inr, arith, ap,
}
use disaster_alert.Prelude.Int.{ℤ}
use disaster_alert.Text.{Text, text, text_eq}
use disaster_alert.Event.{is_retired}
use disaster_alert.Event.Digest.{Platform}
use disaster_alert.Geo.{FloatOps}
use disaster_alert.Incident.{IncidentId, IncidentCapacity, is_applied}
use disaster_alert.Incident.Record.{IncidentRecord}
use disaster_alert.Storage.{Store, MatchJob, InboxItem, Codec, capacity, Result, ok, err}
use disaster_alert.Storage.Keyspace.{
  Map, get, insert, remove, nat_key, text_key, get-insert, get-insert_self,
}
use disaster_alert.Storage.Ingest.{get_id, next_id, first_pending, complete_inbox, reject_inbox}
use disaster_alert.Storage.Correlation.{resolve_incident}
use disaster_alert.Storage.Correlation.Resolution.{resolve_incident-Stored}
use disaster_alert.Storage.Incidents.{commit_incident}
use disaster_alert.Storage.Incidents.Records.{jobs_after, commit_incident-records}
use disaster_alert.Storage.Incidents.Pending.{IsFresh, IsCounted-same, commit_incident-IsCounted}
use disaster_alert.Events.Jobs.{IsConsistent, job_counter, Fits, reduce-Fits, some-not-none}
use disaster_alert.Events.{
  EventPolicy, IncidentTransition, Reduction, reduces, refuses, should_match, committed,
  reject_capacity, with_revision, with_job_id, advance, reduced, resolved, process, process_pending,
  process_next,
}

-- What a step that has not touched incidents and jobs leaves.
IsConsistent-same :
    (s s' : Store)
    → IsConsistent s
    → s'.incidents ≡ s.incidents
    → s'.match_jobs ≡ s.match_jobs
    → job_counter s ≤ job_counter s'
    → IsConsistent s'
IsConsistent-same s s' inv i m n = record {
  is_counted = IsCounted-same s s' inv.is_counted i m;
  below = λ id h. ground (arith, m, inv.below id, n, h);
}

abbrev no_job : Option MatchJob
no_job = none

pub next_id-ok :
    (name : Text) (s s' : Store) (n : ℕ)
    → next_id name s ≡ ok (n, s')
    → (s'.incidents ≡ s.incidents)
      × (s'.match_jobs ≡ s.match_jobs)
      × (n ≡ get_id (get s.next_ids name) + 1)
      × (s'.next_ids ≡ insert s.next_ids name n)
unfolding next_id
next_id-ok name s s' n h = ground arith

next_id_job :
    (s s' : Store) (n : ℕ)
    → next_id (text "match_job") s ≡ ok (n, s')
    → (s'.incidents ≡ s.incidents)
      × (s'.match_jobs ≡ s.match_jobs)
      × (job_counter s < n)
      × (job_counter s' ≡ n)
unfolding job_counter
next_id_job s s' n h =
    let (i, m, e, ids) = next_id-ok (text "match_job") s s' n h in
    (
      i,
      m,
      ground (arith, e),
      ap (λ ids. get_id (get ids (text "match_job"))) ids
          ∙ ap get_id (get-insert_self s.next_ids (text "match_job") n),
    )

other_name : text_eq (text "event_revision") (text "match_job") ≡ false
unfolding text_eq
other_name = refl

other_counter :
    (m : Map Text ℕ) (n : ℕ)
    → get (insert m (text "event_revision") n) (text "match_job") ≡ get m (text "match_job")
other_counter m n = rw (get-insert m (text "event_revision") (text "match_job") n, other_name) refl

next_id_revision :
    (s s' : Store) (n : ℕ)
    → next_id (text "event_revision") s ≡ ok (n, s')
    → (s'.incidents ≡ s.incidents)
      × (s'.match_jobs ≡ s.match_jobs)
      × (job_counter s' ≡ job_counter s)
unfolding job_counter
next_id_revision s s' n h =
    let (i, m, e, ids) = next_id-ok (text "event_revision") s s' n h in
    (
      i,
      m,
      ap (λ ids. get_id (get ids (text "match_job"))) ids ∙ ap get_id (other_counter s.next_ids n),
    )

counter_same : (s s' : Store) → s'.next_ids ≡ s.next_ids → job_counter s' ≡ job_counter s
unfolding job_counter
counter_same s s' h = ap (λ ids. get_id (get ids (text "match_job"))) h

module _ (p : Platform) (o : FloatOps) (c : Codec) (policy : EventPolicy) (now_ms : ℤ) where
  -- A job that is committed has a number that was given before.
  Numbered : Store → Option MatchJob → Type 0
  Numbered s none = Unit {0}
  Numbered s (some job) = job.id ≤ job_counter s

  numbered : (s : Store) (job : MatchJob) → job.id ≤ job_counter s → Numbered s (some job)
  unfolding Numbered
  numbered s job h = h

  unnumbered : (s : Store) → Numbered s none
  unfolding Numbered
  unnumbered s = tt

  jobs_after-below :
      (s : Store) (job : Option MatchJob)
      → IsConsistent s
      → Numbered s job
      → (id : ℕ) → job_counter s < id
      → get (jobs_after job s.match_jobs) id ≡ none
  unfolding Numbered
  jobs_after-below s none inv n id h = inv.below id h
  jobs_after-below s (some job) inv n id h =
      ground (arith, get-insert s.match_jobs job.id id job, inv.below id, ==_iff job.id id)

  commit-IsConsistent :
      (item : InboxItem) (r : IncidentRecord) (job : Option MatchJob) (s : Store) (x : Result Store)
      → commit_incident p c r item.event job item.id s ≡ x
      → IsConsistent s
      → Numbered s job
      → IsFresh s r.id job
      → (get s.incidents r.id ≡ none → r.pending_match_jobs ≡ 0)
      → IsConsistent (committed job x s).1
  commit-IsConsistent item r job s (err e) run inv n fresh h = inv
  commit-IsConsistent item r job s (ok s') run inv n fresh h =
      let (_, m, _, ids) = commit_incident-records p c s r item.event job item.id s' run in
      record {
        is_counted =
            commit_incident-IsCounted p c s r item.event job item.id s' inv.is_counted fresh h run;
        below = λ id later.
            ap (λ jobs. get jobs id) m
            ∙ jobs_after-below s job inv n id (rw (← counter_same s s' ids) later);
      }

  with_revision-IsConsistent :
      (item : InboxItem) (r : IncidentRecord) (id : IncidentId) (n : ℕ) (s : Store)
      (x : Result (ℕ × Store))
      → next_id (text "event_revision") s ≡ x
      → IsConsistent s
      → r.id ≡ id
      → (get s.incidents id ≡ none → r.pending_match_jobs ≡ 0)
      → get s.match_jobs n ≡ none
      → n ≤ job_counter s
      → IsConsistent (with_revision p o c policy now_ms item r id n s x).1
  unfolding with_revision
  with_revision-IsConsistent item r id n s (err e) run inv own h free below = inv
  with_revision-IsConsistent item r id n s (ok (k, s')) run inv own h free below =
      let (i, m, counter) = next_id_revision s s' k run in
      let job : MatchJob = record {
        id = n;
        incident_id = id;
        event_revision = k;
        created_at_ms = now_ms;
      } in
      commit-IsConsistent item r (some job) s' _ refl
        (IsConsistent-same s s' inv i m (ground (arith, counter)))
        (numbered s' job (ground (arith, counter, below)))
        (ap (λ jobs. get jobs n) m ∙ free, sym own)
        (λ missing.
          h (ap (λ records. get records id) (sym i) ∙ ap (get s'.incidents) (sym own) ∙ missing))

  with_job_id-IsConsistent :
      (item : InboxItem) (r : IncidentRecord) (id : IncidentId) (s : Store) (x : Result (ℕ × Store))
      → next_id (text "match_job") s ≡ x
      → IsConsistent s
      → r.id ≡ id
      → (get s.incidents id ≡ none → r.pending_match_jobs ≡ 0)
      → IsConsistent (with_job_id p o c policy now_ms item r id s x).1
  unfolding with_job_id
  with_job_id-IsConsistent item r id s (err e) run inv own h = inv
  with_job_id-IsConsistent item r id s (ok (n, s')) run inv own h =
      let (i, m, above, counter) = next_id_job s s' n run in
      with_revision-IsConsistent item r id n s' (next_id (text "event_revision") s') refl
        (IsConsistent-same s s' inv i m (ground (arith, above, counter))) own
        (λ missing. h (ap (λ records. get records id) (sym i) ∙ missing))
        (ap (λ jobs. get jobs n) m ∙ inv.below n above) (ground (arith, counter))

  complete_inbox-IsConsistent :
      (id : ℕ) (s : Store) → IsConsistent s → IsConsistent (complete_inbox id s)
  unfolding complete_inbox
  complete_inbox-IsConsistent id s inv =
      IsConsistent-same s _ inv refl refl
        (ground (arith, counter_same s (record s { inbox = remove s.inbox id }) refl))

  rejected-IsConsistent :
      (item : InboxItem) (limit : IncidentCapacity) (s : Store) (x : Result Store)
      → reject_inbox c item now_ms limit s ≡ x
      → IsConsistent s
      → IsConsistent (committed no_job x s).1
  unfolding reject_inbox
  rejected-IsConsistent item limit s (err e) run inv = inv
  rejected-IsConsistent item limit s (ok s') run inv =
      let same : (s'.incidents ≡ s.incidents)
          × (s'.match_jobs ≡ s.match_jobs)
          × (s'.next_ids ≡ s.next_ids) =
        ground (arith, run) in
      IsConsistent-same s s' inv same.0 same.1 (ground (arith, counter_same s s' same.2))

  reject_capacity-IsConsistent :
      (item : InboxItem) (limit : IncidentCapacity) (s : Store)
      → IsConsistent s
      → IsConsistent (reject_capacity p o c policy now_ms item limit s).1
  unfolding reject_capacity
  reject_capacity-IsConsistent item limit s inv =
      rejected-IsConsistent item limit s (reject_inbox c item now_ms limit s) refl inv

  advance-IsConsistent :
      (item : InboxItem) (id : IncidentId) (current : Option IncidentRecord)
      (t : IncidentTransition) (s : Store)
      → IsConsistent s
      → get s.incidents id ≡ current
      → Fits id current (reduces t)
      → IsConsistent (advance p o c policy now_ms item id current t s).1
  unfolding advance Fits
  advance-IsConsistent item id current t s inv stored (own, fresh) =
      elim (Bool-cases (not (is_applied t.outcome))) [
        | inl h ↦ rw h (complete_inbox-IsConsistent item.id s inv)
        | inr h ↦ elim (Bool-cases (not (should_match policy current item.event now_ms))) [
          | inl k ↦
              rw (h, k)
                (commit-IsConsistent item t.incident none s _ refl inv (unnumbered s) tt
                  (λ missing. fresh (sym stored ∙ ap (get s.incidents) (sym own) ∙ missing)))
          | inr k ↦
              rw (h, k)
                (with_job_id-IsConsistent item t.incident id s (next_id (text "match_job") s) refl
                  inv own (λ missing. fresh (sym stored ∙ missing)))
        ]
      ]

  reduced-IsConsistent :
      (item : InboxItem) (id : IncidentId) (current : Option IncidentRecord) (x : Reduction)
      (s : Store)
      → IsConsistent s
      → get s.incidents id ≡ current
      → Fits id current x
      → IsConsistent (reduced p o c policy now_ms item id current x s).1
  unfolding reduced
  reduced-IsConsistent item id current (refuses limit) s inv stored fits =
      reject_capacity-IsConsistent item limit s inv
  reduced-IsConsistent item id current (reduces t) s inv stored fits =
      advance-IsConsistent item id current t s inv stored fits

  resolved-IsConsistent :
      (item : InboxItem) (x : Result IncidentId) (s : Store)
      → resolve_incident p o s item.event ≡ x
      → IsConsistent s
      → IsConsistent (resolved p o c policy now_ms item x s).1
  unfolding resolved
  resolved-IsConsistent item (err (capacity limit)) s run inv =
      reject_capacity-IsConsistent item limit s inv
  resolved-IsConsistent item (err _) s run inv = inv
  resolved-IsConsistent item (ok id) s run inv =
      reduced-IsConsistent item id (get s.incidents id) _ s inv refl (
        reduce-Fits p item.event now_ms id (get s.incidents id)
          (λ missing. elim (resolve_incident-Stored p o s item.event id run) [
            | inl (r, here) ↦ absurd (some-not-none (sym here ∙ missing))
            | inr own ↦ own
          ])
          (inv.is_counted.incident_ids id))

  process-IsConsistent :
      (item : InboxItem) (s : Store)
      → IsConsistent s
      → IsConsistent (process p o c policy now_ms item s).1
  unfolding process
  process-IsConsistent item s inv = elim (Bool-cases (is_retired item.event.category)) [
    | inl h ↦ rw h (complete_inbox-IsConsistent item.id s inv)
    | inr h ↦ rw h (resolved-IsConsistent item (resolve_incident p o s item.event) s refl inv)
  ]

  pending-IsConsistent :
      (x : Option InboxItem) (s : Store)
      → IsConsistent s
      → IsConsistent (process_pending p o c policy now_ms x s).1
  unfolding process_pending
  pending-IsConsistent none s inv = inv
  pending-IsConsistent (some item) s inv = process-IsConsistent item s inv

  -- A step of the coordinator, whether it succeeds or fails, keeps every incident's count of
  -- pending match jobs equal to the number of its jobs in the store, keeps every incident under
  -- its own identifier, and leaves no job with an identifier that is still to be given.
  pub process_next-IsConsistent :
      (s : Store) → IsConsistent s → IsConsistent (process_next p o c policy now_ms s).1
  unfolding process_next
  process_next-IsConsistent s inv = pending-IsConsistent (first_pending s) s inv
