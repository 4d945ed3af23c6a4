-- ===== src/Incident.antt =====
-- src/models/incident.rs: incidents, which gather the reports of one event from several sources.
--
-- The constants, the outcomes of a report, and the bounds put on the texts of a report. `Watermark` has
-- the state of one report stream, and `Record` the whole incident.
pub mod Watermark
pub mod Record
pub mod Bounded
use disaster_alert.Prelude.{
  ℕ, ◌+◌, Bool, true, false, not, ◌&&◌, ◌||◌, Option, none, some, List, [], ◌∷◌, ◌==◌, ltb, leb,
  if◌then◌else◌, length, take, get_elem?, map, any, all, ◌++◌,
}
use disaster_alert.Text.{Text, text, byte_len}
use disaster_alert.Event.{DisasterEvent}
use disaster_alert.Event.Digest.{Platform, as_bytes}

abbrev pub max_incident_timeline : ℕ
max_incident_timeline = 16

abbrev pub max_latest_sources : ℕ
max_latest_sources = 8

abbrev pub max_source_event_keys : ℕ
max_source_event_keys = 32

abbrev pub max_stream_watermarks : ℕ
max_stream_watermarks = 32

abbrev pub max_current_report_updates : ℕ
max_current_report_updates = 16

-- `IncidentId` is its text.
abbrev pub IncidentId : Type 0
IncidentId = Text

-- `IncidentId::derive`.
unfoldable pub derive : Platform → Text → IncidentId
unfolding as_bytes
derive p event_key =
    p.base64url (
      take 16 (p.sha256 (as_bytes (text "disaster-alert:incident:v1") ++ (0 ∷ as_bytes event_key))))

is_id_character : ℕ → Bool
is_id_character c =
    (leb b'0' c && leb c b'9')
    || (leb b'A' c && leb c b'Z')
    || (leb b'a' c && leb c b'z')
    || c == b'-'
    || c == b'_'

-- `IncidentId::parse`.
unfoldable pub parse : Text → Option IncidentId
unfolding byte_len all is_id_character
parse value = if byte_len value == 22 && all is_id_character value then some value else none

pub data IncidentCapacity : Type 0 where
  stream_watermarks current_report_updates source_event_keys : IncidentCapacity
  state_versions correlation_candidates : IncidentCapacity

pub data IncidentApplyOutcome : Type 0 where
  applied replay rejected : IncidentApplyOutcome
  capacity_exceeded : IncidentCapacity → IncidentApplyOutcome

-- `IncidentApplyOutcome::applied`.
abbrev pub is_applied : IncidentApplyOutcome → Bool
is_applied applied = true
is_applied _ = false

abbrev pub should_project : IncidentApplyOutcome → Bool
should_project applied = true
should_project replay = true
should_project _ = false

abbrev is_some {ℓ} : {A : Type ℓ} → Option A → Bool
is_some none = false
is_some (some a) = true

unfoldable pub exceeds_char_limit : Text → ℕ → Bool
exceeds_char_limit value max_chars = is_some (get_elem? value max_chars)

unfoldable pub truncate_in_place : Text → ℕ → Text
unfolding exceeds_char_limit
truncate_in_place value max_chars =
    if exceeds_char_limit value max_chars then take max_chars value else value

unfoldable pub exceeds_bounds : DisasterEvent → Bool
unfolding exceeds_char_limit any
exceeds_bounds e =
    exceeds_char_limit e.title 180
    || exceeds_char_limit e.description 4000
    || exceeds_char_limit e.occurred_at 80
    || ltb 20 (length e.affected_regions)
    || any (λ region. exceeds_char_limit region 80) e.affected_regions

-- `bounded_event`.
unfoldable pub bounded_event : DisasterEvent → DisasterEvent
unfolding exceeds_bounds truncate_in_place
bounded_event e = if not (exceeds_bounds e) then e else (record e {
  title = truncate_in_place e.title 180;
  description = truncate_in_place e.description 4000;
  occurred_at = truncate_in_place e.occurred_at 80;
  affected_regions = map (λ region. truncate_in_place region 80) (take 20 e.affected_regions);
})
