-- ===== src/Incident/Watermark.antt =====
-- src/models/incident.rs: `IncidentStreamWatermark`, the newest report of one source's stream.
pub mod Monotone
pub mod Replays
pub mod Streams
use disaster_alert.Prelude.{
  ℕ, Bool, true, false, not, ◌&&◌, ◌||◌, List, [], ◌∷◌, ◌++◌, ◌==◌, ltb, leb, if◌then◌else◌, length,
  tail, any,
}
use disaster_alert.Text.{Text, text_eq}
use disaster_alert.Event.{DisasterCategory, DisasterEvent, category_eq}
use disaster_alert.Event.Digest.{Platform, event_update_id}
use disaster_alert.Incident.{
  max_current_report_updates, IncidentApplyOutcome, applied, replay, rejected, capacity_exceeded,
  IncidentCapacity,
}

pub record IncidentStreamWatermark : Type 0 where
  pub category : DisasterCategory
  pub source : Text
  pub event_id : Text
  pub report_num : ℕ
  pub level : ℕ
  pub final_report : Bool
  pub cancel : Bool
  pub current_report_updates : List Text

-- `Vec::contains` of texts.
unfoldable pub contains : List Text → Text → Bool
unfolding any
contains xs t = any (λ x. text_eq x t) xs

unfoldable pub matches : IncidentStreamWatermark → DisasterEvent → Bool
matches w e =
    category_eq w.category e.category && text_eq w.source e.source && text_eq w.event_id e.event_id

unfoldable pub is_safety_transition : IncidentStreamWatermark → DisasterEvent → Bool
is_safety_transition w e =
    (e.cancel && not w.cancel) || (e.final_report && not w.final_report) || ltb w.level e.level

-- The list behind `remember_update`.
unfoldable pub remember : List Text → Text → Bool → List Text
remember updates digest replace_oldest =
    if contains updates digest
    then updates
    else if leb max_current_report_updates (length updates)
    then (if replace_oldest then tail updates ++ digest ∷ [] else updates)
    else updates ++ digest ∷ []

module _ (p : Platform) where
  unfoldable pub has_seen_update : IncidentStreamWatermark → DisasterEvent → Bool
  has_seen_update w e = contains w.current_report_updates (event_update_id p e)

  unfoldable pub remember_update :
      IncidentStreamWatermark → DisasterEvent → Bool → IncidentStreamWatermark
  remember_update w e replace_oldest = record w {
    current_report_updates = remember w.current_report_updates (event_update_id p e) replace_oldest;
  }

  unfoldable pub from_event : DisasterEvent → IncidentStreamWatermark
  unfolding remember_update
  from_event e =
      remember_update
        (record {
          category = e.category;
          source = e.source;
          event_id = e.event_id;
          report_num = e.report_num;
          level = e.level;
          final_report = e.final_report;
          cancel = e.cancel;
          current_report_updates = [];
        })
        e false

  unfoldable pub outcome : IncidentStreamWatermark → DisasterEvent → IncidentApplyOutcome
  unfolding has_seen_update
  outcome w e =
      let terminal_transition =
        (e.cancel && not w.cancel) || (e.final_report && not w.final_report) in
      if (w.cancel && not e.cancel) || (w.final_report && not e.final_report && not e.cancel)
      then rejected
      else if ltb w.report_num e.report_num
      then applied
      else if ltb e.report_num w.report_num
      then (if terminal_transition
          then applied
          else if ((e.cancel && w.cancel) || (e.final_report && w.final_report))
              && has_seen_update w e
          then replay
          else rejected)
      else if terminal_transition
      then applied
      else if ltb w.level e.level
      then applied
      else if ltb e.level w.level
      then rejected
      else if has_seen_update w e
      then replay
      else if ltb (length w.current_report_updates) max_current_report_updates
      then applied
      else capacity_exceeded IncidentCapacity.current_report_updates

  -- The fields that `commit` sets before it calls `remember_update`.
  unfoldable pub advance : IncidentStreamWatermark → DisasterEvent → IncidentStreamWatermark
  unfolding is_safety_transition
  advance w e = record w {
    current_report_updates =
        if ltb w.report_num e.report_num
          || (is_safety_transition w e && e.report_num == w.report_num)
        then []
        else w.current_report_updates;
    report_num = if leb w.report_num e.report_num then e.report_num else w.report_num;
    level = if leb w.report_num e.report_num then e.level else w.level;
    final_report = w.final_report || e.final_report;
    cancel = w.cancel || e.cancel;
  }

  -- The last test reads the report number that has just been set.
  unfoldable pub commit : IncidentStreamWatermark → DisasterEvent → IncidentStreamWatermark
  unfolding is_safety_transition advance remember_update
  commit w e =
      let w' = advance w e in
      remember_update w' e (is_safety_transition w e && e.report_num == w'.report_num)
