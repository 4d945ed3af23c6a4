-- ===== src/Subscription/Validate.antt =====
-- src/models/subscription.rs: `Subscription::validate`, with `normalize_bark_url` of src/config.rs.
--
-- A message is a constructor of `Invalid`. The parser of URLs is not the program's: `Urls` gives what it
-- reads. A `HashSet` is the list of what was put into it.
pub mod Bands
use disaster_alert.Prelude.{
  ℕ, zero, suc, ◌+◌, ◌-◌, Bool, true, false, not, ◌&&◌, ◌||◌, Option, none, some, List, [], ◌∷◌,
  ◌==◌, ltb, leb, if◌then◌else◌, length, any, all,
}
use disaster_alert.Text.{Text, text, text_eq, byte_len, is_empty}
use disaster_alert.Region.{trim}
use disaster_alert.Event.{DisasterCategory, category_eq, is_retired}
use disaster_alert.Event.Digest.{as_bytes}
use disaster_alert.Event.Float.{F64, is_finite, f64_le}
use disaster_alert.Geo.{validate_coordinates}
use disaster_alert.Sources.{SourceDefinition, find_source}
use disaster_alert.Delivery.{InterruptionLevel, critical, level_eq}
use disaster_alert.Subscription.{
  DestinationId, MonitoringTarget, SourceSelection, all_sources, include, IntensityBand, AlertRule,
  warning_rule, report_rule, weather_rule, tsunami_rule, typhoon_rule, Subscription, rule_category,
  rule_sources,
}

pub record Url : Type 0 where
  pub scheme : Text
  pub host_str : Option Text
  pub username : Text
  pub password : Option Text
  pub query : Option Text
  pub fragment : Option Text
  pub as_str : Text

-- `Url::parse`.
pub record Urls : Type 0 where
  pub url_parse : Text → Option Url

pub data Invalid : Type 0 where
  bark_url bark_key target_count alert_count : Invalid
  coordinates control_character field_length : Invalid
  repeated_category retired_category : Invalid
  no_source repeated_source unknown_source foreign_source : Invalid
  band_count band_range repeated_level critical_range overlapping_bands : Invalid
  magnitude_range severity_range radius_range distance_range : Invalid

pub data Validation : Type 0 where
  valid : Validation
  invalid : Invalid → Validation

infixl 5 ◌>>◌
abbrev pub ◌>>◌ : Validation → Validation → Validation
valid >> next = next
invalid reason >> next = invalid reason

abbrev pub refuse_if : Bool → Invalid → Validation
refuse_if test reason = if test then invalid reason else valid

abbrev is_some {ℓ} : {A : Type ℓ} → Option A → Bool
is_some none = false
is_some (some a) = true

-- `trim_end_matches('/')`.
trim_end_slashes : Text → Text
trim_end_slashes [] = []
trim_end_slashes (c ∷ cs) =
    let rest = trim_end_slashes cs in if is_empty rest && c == b'/' then [] else c ∷ rest

-- The tests of `normalize_bark_url` on a URL that was parsed.
normalize_url : Url → Option Text
unfolding text_eq is_empty trim_end_slashes
normalize_url url =
    if not (text_eq url.scheme (text "http") || text_eq url.scheme (text "https"))
      || not (is_some url.host_str)
      || not (is_empty url.username)
      || is_some url.password
      || is_some url.query
      || is_some url.fragment
    then none
    else some (trim_end_slashes url.as_str)

module _ (u : Urls) where
  unfoldable pub normalize_bark_url : Text → Option Text
  unfolding trim normalize_url
  normalize_bark_url value = elim (u.url_parse (trim value)) [
    | none ↦ none
    | some url ↦ normalize_url url
  ]

  is_normalized : Text → Bool
  unfolding normalize_bark_url text_eq
  is_normalized base_url = elim (normalize_bark_url base_url) [
    | none ↦ false
    | some normalized ↦ text_eq normalized base_url
  ]

is_ascii_alphanumeric : ℕ → Bool
is_ascii_alphanumeric c =
    (leb b'0' c && leb c b'9') || (leb b'A' c && leb c b'Z') || (leb b'a' c && leb c b'z')

unfoldable pub is_bark_key : Text → Bool
unfolding is_empty byte_len all as_bytes is_ascii_alphanumeric
is_bark_key key =
    not (is_empty key) && leb (byte_len key) 64 && all is_ascii_alphanumeric (as_bytes key)

-- `char::is_control`: the two ranges of control characters.
is_control : ℕ → Bool
is_control c = ltb c 32 || (leb 127 c && ltb c 160)

unfoldable pub max_target_field_chars : ℕ
max_target_field_chars = 80

validate_fields : List Text → Validation
unfolding any is_control max_target_field_chars
validate_fields [] = valid
validate_fields (value ∷ values) = do
  refuse_if (any is_control value) control_character
  refuse_if (ltb max_target_field_chars (length value)) field_length
  validate_fields values

unfoldable pub validate_target : MonitoringTarget → Validation
unfolding validate_coordinates validate_fields
validate_target target = do
  refuse_if (not (validate_coordinates target.point.latitude target.point.longitude)) coordinates
  validate_fields
      (target.label ∷ target.region.province ∷ target.region.city ∷ target.region.district ∷ [])

validate_ids : DisasterCategory → List Text → List Text → Validation
unfolding any text_eq find_source category_eq
validate_ids category seen [] = valid
validate_ids category seen (id ∷ ids) = do
  refuse_if (any (λ other. text_eq other id) seen) repeated_source
  elim (find_source id) [
    | none ↦ invalid unknown_source
    | some source ↦ refuse_if (not (category_eq source.category category)) foreign_source
  ]
  validate_ids category (id ∷ seen) ids

unfoldable pub validate_sources : DisasterCategory → SourceSelection → Validation
unfolding validate_ids
validate_sources category all_sources = valid
validate_sources category (include []) = invalid no_source
validate_sources category (include (id ∷ ids)) = validate_ids category [] (id ∷ ids)

-- `for intensity in min..=max`: `count` values from `start` on are put into `covered`.
pub cover : ℕ → ℕ → List ℕ → Option (List ℕ)
unfolding any
cover zero start covered = some covered
cover (suc count) start covered =
    let rest = cover count (start + 1) (start ∷ covered) in
    if any (λ other. other == start) covered then none else rest

pub validate_bands : List InterruptionLevel → List ℕ → List IntensityBand → Validation
unfolding any level_eq cover
validate_bands levels covered [] = valid
validate_bands levels covered (band ∷ bands) = do
  refuse_if (ltb band.max band.min || ltb 7 band.max) band_range
  refuse_if (any (λ other. level_eq other band.interruption_level) levels) repeated_level
  refuse_if (level_eq band.interruption_level critical && not (band.max == 7)) critical_range
  elim (cover (band.max + 1 - band.min) band.min covered) [
    | none ↦ invalid overlapping_bands
    | some covered' ↦ validate_bands (band.interruption_level ∷ levels) covered' bands
  ]

unfoldable pub validate_intensity_bands : List IntensityBand → Validation
unfolding validate_bands
validate_intensity_bands bands = do
  refuse_if (length bands == 0 || ltb 3 (length bands)) band_count
  validate_bands [] [] bands

unfoldable pub validate_severity : ℕ → Validation
validate_severity severity = refuse_if (not (leb 1 severity && leb severity 4)) severity_range

-- `is_finite() && (low..=high).contains(value)`.
in_range : F64 → F64 → F64 → Bool
unfolding is_finite f64_le
in_range low high value = is_finite value && f64_le low value && f64_le value high

validate_rule : AlertRule → Validation
unfolding validate_intensity_bands in_range validate_severity
validate_rule (warning_rule sources bands) = validate_intensity_bands bands
validate_rule (report_rule sources min_magnitude) =
    refuse_if (not (in_range 0 0x4024000000000000 min_magnitude)) magnitude_range
validate_rule (weather_rule sources min_severity radius) = do
  validate_severity min_severity
  refuse_if (not (in_range 0x3ff0000000000000 0x409f400000000000 radius)) radius_range
validate_rule (tsunami_rule sources min_severity) = validate_severity min_severity
validate_rule (typhoon_rule sources distance) =
    refuse_if (not (in_range 0x3ff0000000000000 0x40a7700000000000 distance)) distance_range

unfoldable pub validate_alert : AlertRule → Validation
unfolding is_retired rule_category rule_sources validate_sources validate_rule
validate_alert rule = do
  refuse_if (is_retired (rule_category rule)) retired_category
  validate_sources (rule_category rule) (rule_sources rule)
  validate_rule rule

validate_targets : List MonitoringTarget → Validation
unfolding validate_target
validate_targets [] = valid
validate_targets (target ∷ targets) = validate_target target >> validate_targets targets

validate_alerts : List DisasterCategory → List AlertRule → Validation
unfolding any category_eq rule_category validate_alert
validate_alerts categories [] = valid
validate_alerts categories (rule ∷ rules) = do
  refuse_if (any (λ other. category_eq other (rule_category rule)) categories) repeated_category
  validate_alert rule
  validate_alerts (rule_category rule ∷ categories) rules

-- The number of categories of `DisasterCategory::ALL`.
abbrev pub category_count : ℕ
category_count = 2

unfoldable pub validate : Urls → Subscription → Validation
unfolding is_normalized is_bark_key validate_targets validate_alerts
validate u s = do
  refuse_if (not (is_normalized u s.destination.base_url)) bark_url
  refuse_if (not (is_bark_key s.destination.device_key)) bark_key
  refuse_if (length s.targets == 0 || ltb 3 (length s.targets)) target_count
  refuse_if (length s.alerts == 0 || ltb category_count (length s.alerts)) alert_count
  validate_targets s.targets
  validate_alerts [] s.alerts
