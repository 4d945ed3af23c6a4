-- ===== src/Incident/Record.antt =====
-- src/models/incident.rs: `IncidentRecord` with its report summaries.
--
-- A vector is indexed in the source at the position of the first element that fits; here that element
-- is found and replaced by `find?` and `modify_first`, which stop at the same place.
pub mod Bounds
pub mod Effects
pub mod Streams
use disaster_alert.Prelude.{
  ℕ, suc, ◌+◌, ◌-◌, ◌^◌, Bool, true, false, not, ◌&&◌, ◌||◌, Option, none, some, List, [], ◌∷◌,
  ◌++◌, ◌==◌, leb, if◌then◌else◌, length, tail, get_last?, any, find?, modify_first,
}
use disaster_alert.Prelude.Int.{ℤ, max_ℤ}
use disaster_alert.Text.{Text, text_eq, is_empty}
use disaster_alert.Event.{DisasterCategory, DisasterEvent, category_eq, event_key}
use disaster_alert.Event.Float.{F64, option_f64_eq}
use disaster_alert.Event.Digest.{Platform}
use disaster_alert.Incident.{
  max_incident_timeline, max_latest_sources, max_source_event_keys, max_stream_watermarks,
  IncidentId, IncidentCapacity, IncidentApplyOutcome, applied, capacity_exceeded, is_applied,
  bounded_event,
}
use disaster_alert.Incident.Watermark.{
  IncidentStreamWatermark, matches, outcome, commit, from_event, contains,
}

pub record IncidentReportSummary : Type 0 where
  pub category : DisasterCategory
  pub source : Text
  pub report_num : ℕ
  pub revision : Text
  pub observed_at_ms : ℤ
  pub magnitude : Option F64
  pub latitude : Option F64
  pub longitude : Option F64
  pub depth_km : Option F64
  pub level : ℕ
  pub final_report : Bool
  pub cancel : Bool

unfoldable pub summary_from_event : DisasterEvent → ℤ → IncidentReportSummary
summary_from_event e observed_at_ms = record {
  category = e.category;
  source = e.source;
  report_num = e.report_num;
  revision = e.revision;
  observed_at_ms = observed_at_ms;
  magnitude = e.magnitude;
  latitude = e.latitude;
  longitude = e.longitude;
  depth_km = e.depth_km;
  level = e.level;
  final_report = e.final_report;
  cancel = e.cancel;
}

bool_eq : Bool → Bool → Bool
bool_eq true b = b
bool_eq false b = not b

unfoldable pub same_report : IncidentReportSummary → IncidentReportSummary → Bool
unfolding bool_eq
same_report s t =
    category_eq s.category t.category
    && text_eq s.source t.source
    && s.report_num == t.report_num
    && text_eq s.revision t.revision
    && option_f64_eq s.magnitude t.magnitude
    && option_f64_eq s.latitude t.latitude
    && option_f64_eq s.longitude t.longitude
    && option_f64_eq s.depth_km t.depth_km
    && s.level == t.level
    && bool_eq s.final_report t.final_report
    && bool_eq s.cancel t.cancel

pub record IncidentRecord : Type 0 where
  pub schema_version : ℕ
  pub id : IncidentId
  pub category : DisasterCategory
  pub first_seen_at_ms : ℤ
  pub updated_at_ms : ℤ
  pub state_version : ℕ
  pub source_event_keys : List Text
  pub latest_by_source : List DisasterEvent
  pub stream_watermarks : List IncidentStreamWatermark
  pub timeline : List IncidentReportSummary
  pub has_matched_subscribers : Bool
  pub pending_match_jobs : ℕ

module _ {ℓ} {A : Type ℓ} where
  -- A push to a vector of at most `limit` elements that drops the first one to make room.
  unfoldable pub push_bounded : ℕ → List A → A → List A
  push_bounded limit xs x = (if leb limit (length xs) then tail xs else xs) ++ x ∷ []

unfoldable pub push_timeline :
    List IncidentReportSummary → IncidentReportSummary → List IncidentReportSummary
unfolding push_bounded same_report
push_timeline timeline summary = elim (get_last? timeline) [
  | none ↦ push_bounded max_incident_timeline timeline summary
  | some current ↦
      if same_report current summary
      then timeline
      else push_bounded max_incident_timeline timeline summary
]

unfoldable pub same_stream : DisasterEvent → DisasterEvent → Bool
same_stream e current =
    text_eq current.source e.source
    && category_eq current.category e.category
    && text_eq current.event_id e.event_id

unfoldable pub push_latest : List DisasterEvent → DisasterEvent → List DisasterEvent
unfolding same_stream push_bounded modify_first any
push_latest latest e =
    if any (same_stream e) latest
    then modify_first (same_stream e) (λ _. e) latest
    else push_bounded max_latest_sources latest e

unfoldable pub remember_keys : List Text → List Text → List Text → Option (List Text)
unfolding contains is_empty
remember_keys known additions [] = some additions
remember_keys known additions (key ∷ keys) =
    let skipped = remember_keys known additions keys in
    let added = remember_keys known (additions ++ key ∷ []) keys in
    if is_empty key || contains known key || contains additions key
    then skipped
    else if leb max_source_event_keys (length known + length additions)
    then none
    else added

-- `remember_source_event_keys`; `none` is the capacity error `SourceEventKeys`, which changes nothing.
unfoldable pub remember_source_event_keys :
    IncidentRecord → List Text → Option (IncidentRecord × Bool)
unfolding remember_keys
remember_source_event_keys r keys = elim (remember_keys r.source_event_keys [] keys) [
  | none ↦ none
  | some additions ↦
      some (
        record r { source_event_keys = r.source_event_keys ++ additions },
        leb 1 (length additions),
      )
]

module _ (p : Platform) where
  -- `IncidentRecord::new`.
  unfoldable pub new : IncidentId → DisasterEvent → ℤ → IncidentRecord
  unfolding bounded_event event_key summary_from_event from_event
  new id e now_ms =
      let event = bounded_event e in
      record {
        schema_version = 1;
        id = id;
        category = event.category;
        first_seen_at_ms = now_ms;
        updated_at_ms = now_ms;
        state_version = 1;
        source_event_keys = event_key event ∷ [];
        latest_by_source = event ∷ [];
        stream_watermarks = from_event p event ∷ [];
        timeline = summary_from_event event now_ms ∷ [];
        has_matched_subscribers = false;
        pending_match_jobs = 0;
      }

  -- What the watermarks of an incident say to a report.
  unfoldable pub watermarks_outcome :
      List IncidentStreamWatermark → DisasterEvent → IncidentApplyOutcome
  unfolding find?
  watermarks_outcome ws e = elim (find? (λ w. matches w e) ws) [
    | some w ↦ outcome p w e
    | none ↦
        if leb max_stream_watermarks (length ws)
        then capacity_exceeded IncidentCapacity.stream_watermarks
        else applied
  ]

  unfoldable pub push_watermark :
      List IncidentStreamWatermark → DisasterEvent → List IncidentStreamWatermark
  unfolding modify_first any
  push_watermark ws e =
      if any (λ w. matches w e) ws
      then modify_first (λ w. matches w e) (λ w. commit p w e) ws
      else ws ++ from_event p e ∷ []

  -- The record behind a report that is applied.
  unfoldable pub applied_record : IncidentRecord → DisasterEvent → ℤ → IncidentRecord
  unfolding push_watermark push_timeline push_latest summary_from_event
  applied_record r e now_ms = record r {
    stream_watermarks = push_watermark r.stream_watermarks e;
    timeline = push_timeline r.timeline (summary_from_event e now_ms);
    latest_by_source = push_latest r.latest_by_source e;
    updated_at_ms = max_ℤ r.updated_at_ms now_ms;
    state_version = r.state_version + 1;
  }

  -- `apply_outcome`: the record behind the call, and the outcome.
  unfoldable pub apply_outcome :
      IncidentRecord → DisasterEvent → ℤ → IncidentRecord × IncidentApplyOutcome
  unfolding bounded_event watermarks_outcome applied_record
  apply_outcome r e now_ms =
      let event = bounded_event e in
      if r.state_version == 2 ^ 64 - 1
      then (r, capacity_exceeded IncidentCapacity.state_versions)
      else if is_applied (watermarks_outcome r.stream_watermarks event)
      then (applied_record r event now_ms, applied)
      else (r, watermarks_outcome r.stream_watermarks event)
