-- ===== src/Examples.antt =====
-- Two reports of one earthquake, and what the library runs on as examples.
pub mod Reports
pub mod Pipeline
pub mod Queue
pub mod Deliveries
pub mod Formats
pub mod Confirmations
pub mod Subscriptions
pub mod Lanes
pub mod Matching
use disaster_alert.Prelude.{ℕ, true, false, none, some, [], ◌∷◌, Option}
use disaster_alert.Prelude.Int.{ℤ, pos}
use disaster_alert.Text.{Text, text}
use disaster_alert.Event.{DisasterEvent, ProviderChannel, DisasterCategory}
use disaster_alert.Event.Digest.{Platform}
use disaster_alert.Geo.{FloatOps}
use disaster_alert.Incident.{derive}
use disaster_alert.Incident.Record.{IncidentRecord, new}
use disaster_alert.Incident.Watermark.{IncidentStreamWatermark, from_event}
use disaster_alert.Storage.{Codec, InboxItem, Store, empty_store, Result, ok, err}

abbrev pub plain : Platform
plain = record { sha256 = λ b. b; base64url = λ b. b; to_lowercase = λ s. s }

abbrev pub no_floats : FloatOps
no_floats = record {
  add = λ x y. x;
  sub = λ x y. x;
  mul = λ x y. x;
  div = λ x y. x;
  sqrt = λ x. x;
  sin = λ x. x;
  cos = λ x. x;
  tan = λ x. x;
  atan = λ x. x;
  atan2 = λ x y. x;
  to_radians = λ x. x;
  from_u64 = λ n. n;
}

abbrev pub small : Codec
small = record {
  inbox_item = λ x. 100;
  rejected_item = λ x. 100;
  incident = λ x. 100;
  event = λ x. 100;
  match_job = λ x. 100;
  delivery_batch = λ x. 100;
  stored_delivery = λ x. 100;
  retry = λ x. 100;
  dead_letter = λ x. 100;
}

abbrev pub first_report : DisasterEvent
first_report = record {
  category = DisasterCategory.earthquake_report;
  channel = ProviderChannel.wolfx;
  source = text "cenc_eqlist";
  event_id = text "q1";
  revision = [];
  report_num = 1;
  title = text "M 5.1";
  description = [];
  latitude = none;
  longitude = none;
  magnitude = none;
  depth_km = none;
  affected_regions = [];
  radius_km = none;
  level = 2;
  occurred_at = text "2024-01-02 03:04:05";
  final_report = false;
  cancel = false;
  training = false;
}

abbrev pub second_report : DisasterEvent
second_report = record first_report { report_num = 2; level = 3 }

abbrev pub cancelled_late : DisasterEvent
cancelled_late = record first_report { report_num = 1; cancel = true }

abbrev pub first_incident : IncidentRecord
first_incident = new plain (text "incident_1") first_report (pos 1000)

abbrev pub first_watermark : IncidentStreamWatermark
first_watermark = from_event plain first_report

abbrev pub stored : Result Store → Store
stored (ok s) = s
stored (err e) = empty_store
