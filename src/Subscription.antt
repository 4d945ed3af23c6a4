-- ===== src/Subscription.antt =====
-- src/models/subscription.rs: what a subscriber asks for.
--
-- The tags and attributes of serde are not modelled. `now_ms` stands for the clock.
pub mod Validate
pub mod Confirmations
use disaster_alert.Prelude.{
  ℕ, Bool, true, false, not, ◌&&◌, Option, none, some, List, [], ◌∷◌, ltb, leb, if◌then◌else◌,
  filter, find?, map,
}
use disaster_alert.Prelude.Int.{ℤ}
use disaster_alert.Text.{Text}
use disaster_alert.Event.{
  DisasterCategory, earthquake_warning, earthquake_report, weather_warning, tsunami, typhoon,
  category_eq, is_retired,
}
use disaster_alert.Event.Float.{F64}
use disaster_alert.Delivery.{InterruptionLevel, passive, active, critical}

-- `NotificationDestination::Bark`, and `DestinationId`, which has the same two fields.
pub record DestinationId : Type 0 where
  pub base_url : Text
  pub device_key : Text

pub record GeoPoint : Type 0 where
  pub latitude : F64
  pub longitude : F64

pub record AdministrativeRegion : Type 0 where
  pub province : Text
  pub city : Text
  pub district : Text

pub record MonitoringTarget : Type 0 where
  pub label : Text
  pub point : GeoPoint
  pub region : AdministrativeRegion

pub data SourceSelection : Type 0 where
  all_sources : SourceSelection
  include : List Text → SourceSelection

pub record IntensityBand : Type 0 where
  pub min : ℕ
  pub max : ℕ
  pub interruption_level : InterruptionLevel

pub data AlertRule : Type 0 where
  warning_rule : SourceSelection → List IntensityBand → AlertRule
  report_rule : SourceSelection → F64 → AlertRule
  weather_rule : SourceSelection → ℕ → F64 → AlertRule
  tsunami_rule : SourceSelection → ℕ → AlertRule
  typhoon_rule : SourceSelection → F64 → AlertRule

pub record Subscription : Type 0 where
  pub destination : DestinationId
  pub targets : List MonitoringTarget
  pub alerts : List AlertRule
  pub created_at : ℤ
  pub updated_at : ℤ

-- `AlertRule::category`.
unfoldable pub rule_category : AlertRule → DisasterCategory
rule_category (warning_rule sources bands) = earthquake_warning
rule_category (report_rule sources min_magnitude) = earthquake_report
rule_category (weather_rule sources min_severity radius) = weather_warning
rule_category (tsunami_rule sources min_severity) = tsunami
rule_category (typhoon_rule sources distance) = typhoon

-- `AlertRule::sources`.
unfoldable pub rule_sources : AlertRule → SourceSelection
rule_sources (warning_rule sources bands) = sources
rule_sources (report_rule sources min_magnitude) = sources
rule_sources (weather_rule sources min_severity radius) = sources
rule_sources (tsunami_rule sources min_severity) = sources
rule_sources (typhoon_rule sources distance) = sources

-- `deserialize_stored_alerts`, behind the deserializer.
unfoldable pub stored_alerts : List AlertRule → List AlertRule
unfolding filter is_retired rule_category
stored_alerts = filter (λ rule. not (is_retired (rule_category rule)))

band : ℕ → ℕ → InterruptionLevel → IntensityBand
band min max level = record { min = min; max = max; interruption_level = level }

-- `AlertRule::default_for`.
unfoldable pub default_for : DisasterCategory → AlertRule
unfolding band
default_for earthquake_warning =
    warning_rule all_sources (band 1 1 passive ∷ band 2 2 active ∷ band 3 7 critical ∷ [])
default_for earthquake_report = report_rule all_sources 0x4012000000000000
default_for weather_warning = weather_rule all_sources 2 0x4059000000000000
default_for tsunami = tsunami_rule all_sources 2
default_for typhoon = typhoon_rule all_sources 0x4072c00000000000

-- `Subscription::alert`.
unfoldable pub alert : Subscription → DisasterCategory → Option AlertRule
unfolding find? category_eq rule_category
alert s category = find? (λ rule. category_eq (rule_category rule) category) s.alerts

-- `Subscription::prepare_for_upsert`.
unfoldable pub prepare_for_upsert : Subscription → Option ℤ → ℤ → Subscription
prepare_for_upsert s none now_ms = record s { updated_at = now_ms }
prepare_for_upsert s (some created_at) now_ms = record s {
  created_at = created_at;
  updated_at = now_ms;
}

-- A rule as clients send it; the sources that it may name are ignored.
pub data AlertRuleRequest : Type 0 where
  warning_request : List IntensityBand → AlertRuleRequest
  report_request : F64 → AlertRuleRequest
  weather_request : ℕ → F64 → AlertRuleRequest
  tsunami_request : ℕ → AlertRuleRequest
  typhoon_request : F64 → AlertRuleRequest

-- `AlertRule::from`.
unfoldable pub from_request : AlertRuleRequest → AlertRule
from_request (warning_request bands) = warning_rule all_sources bands
from_request (report_request min_magnitude) = report_rule all_sources min_magnitude
from_request (weather_request min_severity radius) = weather_rule all_sources min_severity radius
from_request (tsunami_request min_severity) = tsunami_rule all_sources min_severity
from_request (typhoon_request distance) = typhoon_rule all_sources distance

-- `SubscribeRequest::into_alert_rules`.
unfoldable pub into_alert_rules : List AlertRuleRequest → List AlertRule
unfolding from_request
into_alert_rules requests = map from_request requests
