-- ===== src/Events.antt =====
-- src/events/reducer.rs and src/events/coordinator.rs: from the inbox to incidents and match jobs.
--
-- The time of the clock, `now_ms`, is an argument.
pub mod Consumption
pub mod Jobs
pub mod Consistency
pub mod Policy
pub mod Redelivery
use disaster_alert.Prelude.{
  ℕ, suc, ◌+◌, ◌-◌, ◌*◌, ◌≤◌, Bool, true, false, not, ◌&&◌, ◌||◌, Option, none, some, List, [], ◌∷◌,
  ◌==◌, ltb, leb, if◌then◌else◌, find?,
}
use disaster_alert.Prelude.Int.{ℤ, pos, negsuc, ltb_ℤ, leb_ℤ, max_ℤ, saturating_sub, div_euclid}
use disaster_alert.Text.{Text, text, text_eq}
use disaster_alert.Event.{
  DisasterCategory, earthquake_warning, earthquake_report, weather_warning, tsunami, typhoon,
  DisasterEvent, category_eq, is_retired, event_key,
}
use disaster_alert.Event.Digest.{Platform}
use disaster_alert.Event.Time.{parse_event_epoch}
use disaster_alert.Geo.{FloatOps}
use disaster_alert.Incident.{
  IncidentCapacity, IncidentApplyOutcome, applied, replay, rejected, capacity_exceeded, is_applied,
  should_project, derive,
}
use disaster_alert.Incident.Watermark.{IncidentStreamWatermark, matches}
use disaster_alert.Incident.Record.{IncidentRecord, new, apply_outcome, remember_source_event_keys}
use disaster_alert.Storage.{Store, MatchJob, InboxItem, Codec, Error, capacity, Result, ok, err}
use disaster_alert.Storage.Keyspace.{get, text_key}
use disaster_alert.Storage.Ingest.{next_id, first_pending, complete_inbox, reject_inbox}
use disaster_alert.Storage.Correlation.{resolve_incident}
use disaster_alert.Storage.Incidents.{commit_incident}

pub record EventPolicy : Type 0 where
  pub push_updates : Bool
  pub update_min_report_gap : ℕ
  pub ignore_training : Bool
  pub ignore_cancel : Bool
  pub stale_origin_seconds : ℤ

-- `EventPolicy::default`.
abbrev pub default_policy : EventPolicy
default_policy = record {
  push_updates = true;
  update_min_report_gap = 1;
  ignore_training = false;
  ignore_cancel = false;
  stale_origin_seconds = pos 0;
}

pub record IncidentTransition : Type 0 where
  pub incident : IncidentRecord
  pub outcome : IncidentApplyOutcome

-- The one error is a capacity.
pub data Reduction : Type 0 where
  reduces : IncidentTransition → Reduction
  refuses : IncidentCapacity → Reduction

-- The age in seconds past which an event is stale; some categories have none.
unfoldable pub stale_limit : DisasterCategory → ℤ → Option ℤ
stale_limit earthquake_warning seconds = some seconds
stale_limit weather_warning seconds = some seconds
stale_limit earthquake_report seconds = some (max_ℤ seconds (pos 3600))
stale_limit tsunami seconds = none
stale_limit typhoon seconds = none

older_than : ℤ → ℤ → Option ℤ → Bool
unfolding saturating_sub div_euclid
older_than limit now_ms none = true
older_than limit now_ms (some occurred) =
    ltb_ℤ limit (saturating_sub (div_euclid now_ms 1000) occurred)

unfoldable pub stale_origin : DisasterEvent → ℤ → ℤ → Bool
unfolding stale_limit parse_event_epoch older_than
stale_origin event stale_origin_seconds now_ms =
    if leb_ℤ stale_origin_seconds (pos 0)
    then false
    else elim (stale_limit event.category stale_origin_seconds) [
      | none ↦ false
      | some limit ↦ older_than limit now_ms (parse_event_epoch event)
    ]

-- The number of the newest report of the event's stream; 0 if there is none.
unfoldable pub previous_report : Option IncidentRecord → DisasterEvent → ℕ
unfolding find? matches
previous_report none event = 0
previous_report (some incident) event =
    elim (find? (λ w. matches w event) incident.stream_watermarks) [
      | none ↦ 0
      | some watermark ↦ watermark.report_num
    ]

abbrev is_none {ℓ} : {A : Type ℓ} → Option A → Bool
is_none none = true
is_none (some a) = false

unfoldable pub should_match : EventPolicy → Option IncidentRecord → DisasterEvent → ℤ → Bool
unfolding is_retired stale_origin previous_report
should_match policy current event now_ms =
    let gap = if leb policy.update_min_report_gap 1 then 1 else policy.update_min_report_gap in
    if is_retired event.category
      || (event.training && policy.ignore_training)
      || (event.cancel && policy.ignore_cancel)
      || stale_origin event policy.stale_origin_seconds now_ms
    then false
    else if event.cancel || is_none current
    then true
    else if not policy.push_updates
    then false
    else leb gap (event.report_num - previous_report current event) || event.final_report

module _ (p : Platform) where
  remembered : IncidentApplyOutcome → Option (IncidentRecord × Bool) → Reduction
  remembered outcome none = refuses IncidentCapacity.source_event_keys
  remembered outcome (some (incident, changed)) =
      reduces (record { incident = incident; outcome = outcome })

  -- `reduce_incident_at` behind the outcome.
  unfoldable pub project : IncidentRecord → IncidentApplyOutcome → DisasterEvent → Reduction
  unfolding remember_source_event_keys event_key remembered
  project incident (capacity_exceeded limit) event = refuses limit
  project incident outcome event =
      if should_project outcome
      then remembered outcome (remember_source_event_keys incident (event_key event ∷ []))
      else reduces (record { incident = incident; outcome = outcome })

  unfoldable pub reduce_incident_at : Option IncidentRecord → DisasterEvent → ℤ → Reduction
  unfolding project new derive apply_outcome event_key
  reduce_incident_at none event now_ms =
      project (new p (derive p (event_key event)) event now_ms) applied event
  reduce_incident_at (some current) event now_ms =
      let (incident, outcome) = apply_outcome p current event now_ms in
      project incident outcome event

-- The state after a step, and its result.
abbrev pub Exec : Type 0 → Type 0
Exec A = Store → Result A × Store

-- A step that commits one batch.
abbrev committed {ℓ} : {A : Type ℓ} → A → Result Store → Store → Result A × Store
committed a (ok s') s = (ok a, s')
committed a (err e) s = (err e, s)

module _ (p : Platform) (o : FloatOps) (c : Codec) (policy : EventPolicy) (now_ms : ℤ) where
  -- `reject_capacity`.
  unfoldable pub reject_capacity : InboxItem → IncidentCapacity → Exec (Option MatchJob)
  unfolding reject_inbox
  reject_capacity item limit s = committed none (reject_inbox c item now_ms limit s) s

  -- A job gets two identifiers, and is committed with its incident.
  with_revision :
      InboxItem
      → IncidentRecord
      → Text
      → ℕ
      → Store
      → Result (ℕ × Store)
      → Result (Option MatchJob) × Store
  unfolding commit_incident
  with_revision item incident incident_id id s (err e) = (err e, s)
  with_revision item incident incident_id id s (ok (revision, s')) =
      let job : MatchJob = record {
        id = id;
        incident_id = incident_id;
        event_revision = revision;
        created_at_ms = now_ms;
      } in
      committed (some job) (commit_incident p c incident item.event (some job) item.id s') s'

  with_job_id :
      InboxItem
      → IncidentRecord
      → Text
      → Store
      → Result (ℕ × Store)
      → Result (Option MatchJob) × Store
  unfolding next_id with_revision
  with_job_id item incident incident_id s (err e) = (err e, s)
  with_job_id item incident incident_id s (ok (id, s')) =
      with_revision item incident incident_id id s' (next_id (text "event_revision") s')

  unfoldable pub commit_job : InboxItem → IncidentRecord → Text → Exec (Option MatchJob)
  unfolding next_id with_job_id
  commit_job item incident incident_id s =
      with_job_id item incident incident_id s (next_id (text "match_job") s)

  advance : InboxItem → Text → Option IncidentRecord → IncidentTransition → Exec (Option MatchJob)
  unfolding complete_inbox should_match commit_incident commit_job
  advance item incident_id current transition s =
      if not (is_applied transition.outcome)
      then (ok none, complete_inbox item.id s)
      else if not (should_match policy current item.event now_ms)
      then committed none (commit_incident p c transition.incident item.event none item.id s) s
      else commit_job item transition.incident incident_id s

  reduced : InboxItem → Text → Option IncidentRecord → Reduction → Exec (Option MatchJob)
  unfolding reject_capacity advance
  reduced item incident_id current (refuses limit) s = reject_capacity item limit s
  reduced item incident_id current (reduces transition) s =
      advance item incident_id current transition s

  resolved : InboxItem → Result Text → Exec (Option MatchJob)
  unfolding reject_capacity reduced reduce_incident_at get
  resolved item (err (capacity limit)) s = reject_capacity item limit s
  resolved item (err e) s = (err e, s)
  resolved item (ok incident_id) s =
      let current = get s.incidents incident_id in
      reduced item incident_id current (reduce_incident_at p current item.event now_ms) s

  unfoldable pub process : InboxItem → Exec (Option MatchJob)
  unfolding is_retired complete_inbox resolve_incident resolved
  process item s =
      if is_retired item.event.category
      then (ok none, complete_inbox item.id s)
      else resolved item (resolve_incident p o s item.event) s

  process_pending : Option InboxItem → Exec (Option MatchJob)
  unfolding process
  process_pending none s = (ok none, s)
  process_pending (some item) s = process item s

  unfoldable pub process_next : Exec (Option MatchJob)
  unfolding first_pending process_pending
  process_next s = process_pending (first_pending s) s
