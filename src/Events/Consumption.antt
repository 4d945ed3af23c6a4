-- ===== src/Events/Consumption.antt =====
-- What a step of the coordinator does to the inbox and to the match jobs.
use disaster_alert.Prelude.{
  ℕ, ◌≡◌, refl, not, Option, none, some, [], ◌∷◌, ◌∙◌, ==_iff, Bool-cases, inl, inr, arith,
}
use disaster_alert.Prelude.Int.{ℤ}
use disaster_alert.Text.{Text}
use disaster_alert.Event.{is_retired}
use disaster_alert.Event.Digest.{Platform}
use disaster_alert.Geo.{FloatOps}
use disaster_alert.Incident.{IncidentCapacity, is_applied}
use disaster_alert.Incident.Record.{IncidentRecord}
use disaster_alert.Storage.{Store, MatchJob, InboxItem, Codec, capacity, Result, ok, err}
use disaster_alert.Storage.Keyspace.{Map, Distinct, remove-none, get, remove, nat_key, text_key}
use disaster_alert.Storage.Ingest.{next_id, first_pending, complete_inbox, reject_inbox}
use disaster_alert.Storage.Correlation.{resolve_incident}
use disaster_alert.Storage.Incidents.{commit_incident}
use disaster_alert.Storage.Incidents.Records.{jobs_after, commit_incident-records}
use disaster_alert.Events.{
  EventPolicy, IncidentTransition, Reduction, reduces, refuses, should_match, committed,
  reject_capacity, with_revision, with_job_id, commit_job, advance, reduced, resolved, process,
  process_next,
}

-- All but the counters and the indexes are as before.
abbrev pub SameContents : Store → Store → Type 0
SameContents w w' =
    (w'.incidents ≡ w.incidents)
    × (w'.match_jobs ≡ w.match_jobs)
    × (w'.inbox ≡ w.inbox)
    × (w'.rejected_inbox ≡ w.rejected_inbox)
    × (w'.events ≡ w.events)

SameContents-trans : (a b c : Store) → SameContents a b → SameContents b c → SameContents a c
SameContents-trans a b c h k = ground arith

-- A step that succeeds takes the item off the inbox and adds the job it returns; one that fails leaves
-- the records as they were.
pub After : InboxItem → Store → Result (Option MatchJob) × Store → Type 0
After item s (ok result, s') =
    (s'.inbox ≡ remove s.inbox item.id) × (s'.match_jobs ≡ jobs_after result s.match_jobs)
After item s (err e, s') = SameContents s s'

-- A batch that is committed or not, on a store that the counters alone have changed.
committed-After :
    (item : InboxItem) (s s1 : Store) (result : Option MatchJob) (r : Result Store)
    → SameContents s s1
    → ((s' : Store)
        → r ≡ ok s'
        → (s'.inbox ≡ remove s1.inbox item.id) × (s'.match_jobs ≡ jobs_after result s1.match_jobs))
    → After item s (committed result r s1)
unfolding After
committed-After item s s1 result (ok s') same h =
    let (i, m) = h s' refl in ground (arith, i, m, same)
committed-After item s s1 result (err e) same h = ground arith

next_id-SameContents :
    (name : Text) (s s' : Store) (n : ℕ) → next_id name s ≡ ok (n, s') → SameContents s s'
unfolding next_id
next_id-SameContents name s s' n h = ground arith

SameContents-refl : (s : Store) → SameContents s s
SameContents-refl s = (refl, refl, refl, refl, refl)

module _ (p : Platform) (o : FloatOps) (c : Codec) (policy : EventPolicy) (now_ms : ℤ) where
  reject_inbox-records :
      (item : InboxItem) (limit : IncidentCapacity) (s s' : Store)
      → reject_inbox c item now_ms limit s ≡ ok s'
      → (s'.inbox ≡ remove s.inbox item.id) × (s'.match_jobs ≡ s.match_jobs)
  unfolding reject_inbox
  reject_inbox-records item limit s s' h = ground arith

  reject_capacity-After :
      (item : InboxItem) (limit : IncidentCapacity) (s : Store)
      → After item s (reject_capacity p o c policy now_ms item limit s)
  unfolding reject_capacity
  reject_capacity-After item limit s =
      committed-After item s s none (reject_inbox c item now_ms limit s) (SameContents-refl s)
        (reject_inbox-records item limit s)

  commit-After :
      (item : InboxItem) (r : IncidentRecord) (job : Option MatchJob) (s s1 : Store)
      → SameContents s s1
      → After item s (committed job (commit_incident p c r item.event job item.id s1) s1)
  commit-After item r job s s1 same =
      committed-After item s s1 job (commit_incident p c r item.event job item.id s1) same λ s' h.
        let (i, m, _, _) = commit_incident-records p c s1 r item.event job item.id s' h in (i, m)

  with_revision-After :
      (item : InboxItem) (r : IncidentRecord) (id : Text) (n : ℕ) (s s1 : Store)
      (x : Result (ℕ × Store))
      → SameContents s s1
      → ((s' : Store) (k : ℕ) → x ≡ ok (k, s') → SameContents s1 s')
      → After item s (with_revision p o c policy now_ms item r id n s1 x)
  unfolding with_revision After
  with_revision-After item r id n s s1 (err e) same h = ground arith
  with_revision-After item r id n s s1 (ok (k, s2)) same h =
      commit-After item r
        (some (record { id = n; incident_id = id; event_revision = k; created_at_ms = now_ms })) s
        s2 (SameContents-trans s s1 s2 same (h s2 k refl))

  with_job_id-After :
      (item : InboxItem) (r : IncidentRecord) (id : Text) (s : Store) (x : Result (ℕ × Store))
      → ((s' : Store) (k : ℕ) → x ≡ ok (k, s') → SameContents s s')
      → After item s (with_job_id p o c policy now_ms item r id s x)
  unfolding with_job_id After
  with_job_id-After item r id s (err e) h = SameContents-refl s
  with_job_id-After item r id s (ok (n, s1)) h =
      with_revision-After item r id n s s1 _ (h s1 n refl) (next_id-SameContents _ s1)

  commit_job-After :
      (item : InboxItem) (r : IncidentRecord) (id : Text) (s : Store)
      → After item s (commit_job p o c policy now_ms item r id s)
  unfolding commit_job
  commit_job-After item r id s = with_job_id-After item r id s _ (next_id-SameContents _ s)

  complete-After : (item : InboxItem) (s : Store) → After item s (ok none, complete_inbox item.id s)
  unfolding After complete_inbox
  complete-After item s = (refl, refl)

  advance-After :
      (item : InboxItem) (id : Text) (current : Option IncidentRecord) (t : IncidentTransition)
      (s : Store)
      → After item s (advance p o c policy now_ms item id current t s)
  unfolding advance
  advance-After item id current t s = elim (Bool-cases (not (is_applied t.outcome))) [
    | inl h ↦ rw h (complete-After item s)
    | inr h ↦ elim (Bool-cases (not (should_match policy current item.event now_ms))) [
      | inl k ↦ rw (h, k) (commit-After item t.incident none s s (SameContents-refl s))
      | inr k ↦ rw (h, k) (commit_job-After item t.incident id s)
    ]
  ]

  reduced-After :
      (item : InboxItem) (id : Text) (current : Option IncidentRecord) (r : Reduction) (s : Store)
      → After item s (reduced p o c policy now_ms item id current r s)
  unfolding reduced
  reduced-After item id current (refuses limit) s = reject_capacity-After item limit s
  reduced-After item id current (reduces t) s = advance-After item id current t s

  resolved-After :
      (item : InboxItem) (x : Result Text) (s : Store)
      → After item s (resolved p o c policy now_ms item x s)
  unfolding resolved After
  resolved-After item (err (capacity limit)) s = reject_capacity-After item limit s
  resolved-After item (err _) s = SameContents-refl s
  resolved-After item (ok id) s = reduced-After item id (get s.incidents id) _ s

  pub process-After :
      (item : InboxItem) (s : Store) → After item s (process p o c policy now_ms item s)
  unfolding process
  process-After item s = elim (Bool-cases (is_retired item.event.category)) [
    | inl h ↦ rw h (complete-After item s)
    | inr h ↦ rw h (resolved-After item (resolve_incident p o s item.event) s)
  ]

-- What a step that takes the oldest item leaves.
abbrev pub Drained : Map ℕ InboxItem → Store → Result (Option MatchJob) × Store → Type 0
Drained rest s (ok result, s') =
    (s'.inbox ≡ rest) × (s'.match_jobs ≡ jobs_after result s.match_jobs)
Drained rest s (err e, s') = SameContents s s'

Drained-After :
    (rest : Map ℕ InboxItem) (item : InboxItem) (s : Store) (x : Result (Option MatchJob) × Store)
    → remove s.inbox item.id ≡ rest
    → After item s x
    → Drained rest s x
unfolding After
Drained-After rest item s (ok result, s') h (i, m) = (i ∙ h, m)
Drained-After rest item s (err e, s') h same = same

remove_first :
    (m rest : Map ℕ InboxItem) (item : InboxItem)
    → m ≡ (item.id, item) ∷ rest
    → Distinct m
    → remove m item.id ≡ rest
unfolding remove
remove_first [] rest item h d = ground arith
remove_first ((k, j) ∷ m) rest item h d = ground (arith, remove-none m k, d.0, ==_iff k item.id)

module _ (p : Platform) (o : FloatOps) (c : Codec) (policy : EventPolicy) (now_ms : ℤ) where
  process_next-Drained :
      (s : Store) (item : InboxItem) (rest : Map ℕ InboxItem)
      → first_pending s ≡ some item
      → remove s.inbox item.id ≡ rest
      → Drained rest s (process_next p o c policy now_ms s)
  unfolding process_next
  process_next-Drained s item rest h r =
      rw (process_next, h)
        (Drained-After rest item s _ r (process-After p o c policy now_ms item s))

  -- Where the oldest inbox item stands under its own identifier and no identifier stands twice, a
  -- step that succeeds takes exactly that item off the inbox and adds the match job it returns and
  -- no other; a step that fails leaves the inbox, the quarantined items, the incidents, the events
  -- and the jobs as they were.
  pub process_next_consumes :
      (s : Store) (item : InboxItem) (rest : Map ℕ InboxItem)
      → s.inbox ≡ (item.id, item) ∷ rest
      → Distinct s.inbox
      → Drained rest s (process_next p o c policy now_ms s)
  unfolding first_pending
  process_next_consumes s item rest there d =
      process_next-Drained s item rest (rw there refl) (remove_first s.inbox rest item there d)
