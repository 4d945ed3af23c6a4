-- ===== src/Matching.antt =====
-- src/subscriptions/compiled.rs and src/matching: the form of a subscription that events are matched
-- with, and the match of an event.
--
-- A `SourceId`, a `RegionId`, a `SubscriptionId` and a `DestinationNumericId` is its number. H3 is not
-- the program's: the cells about a point are an argument of the plan.
pub mod Masks
pub mod Postings
pub mod Engine
pub mod Plan
use disaster_alert.Prelude.{
  ℕ, zero, suc, ◌+◌, ◌*◌, ◌/◌, ◌%◌, ◌^◌, Bool, true, false, not, ◌&&◌, ◌||◌, Option, none, some,
  List, [], ◌∷◌, ◌++◌, ◌==◌, ltb, leb, if◌then◌else◌, map, filter, find?, take,
}
use disaster_alert.Prelude.Int.{ℤ}
use disaster_alert.Text.{Text, text, text_eq, is_empty}
use disaster_alert.Event.{DisasterCategory, category_eq}
use disaster_alert.Event.Float.{F64}
use disaster_alert.Event.Digest.{Platform, as_bytes}
use disaster_alert.Region.{normalize}
use disaster_alert.Sources.{SourceDefinition, sources}
use disaster_alert.Delivery.{InterruptionLevel}
use disaster_alert.Subscription.{
  AlertRule, warning_rule, report_rule, weather_rule, tsunami_rule, typhoon_rule, SourceSelection,
  all_sources, include, IntensityBand, rule_category, rule_sources,
}

pub record CompiledTarget : Type 0 where
  pub ordinal : ℕ
  pub latitude_e7 : ℤ
  pub longitude_e7 : ℤ
  pub latitude_radians : F64
  pub sin_latitude : F64
  pub cos_latitude : F64
  pub region_ids : List ℕ
  pub h3_cells : List ℕ

pub record CompiledIntensityBand : Type 0 where
  pub min : ℕ
  pub max : ℕ
  pub interruption_level : InterruptionLevel

pub record CompiledRule : Type 0 where
  pub category : DisasterCategory
  pub source_mask : ℕ
  pub wildcard_source : Bool
  pub min_magnitude : F64
  pub min_severity : ℕ
  pub distance_km : F64
  pub intensity_bands : List CompiledIntensityBand

pub record CompiledSubscription : Type 0 where
  pub subscription_id : ℕ
  pub destination_id : ℕ
  pub generation : ℕ
  pub targets : List CompiledTarget
  pub rules : List CompiledRule

abbrev pub unknown_source_id : ℕ
unknown_source_id = 65535

position_from : ℕ → Text → List SourceDefinition → Option ℕ
unfolding text_eq
position_from index value [] = none
position_from index value (source ∷ rest) =
    let later = position_from (index + 1) value rest in
    if text_eq source.id value then some index else later

unfoldable pub source_id : Text → ℕ
unfolding position_from sources
source_id value = elim (position_from 0 value sources) [
  | none ↦ unknown_source_id
  | some index ↦ if ltb (index + 1) (2 ^ 16) then index + 1 else unknown_source_id
]

-- `SourceId::bit`, by the place of the bit.
unfoldable pub bit : ℕ → Option ℕ
bit zero = none
bit (suc n) = if ltb 64 (suc n) then none else some n

-- `mask & (1 << place) != 0`.
unfoldable pub has_bit : ℕ → ℕ → Bool
has_bit mask zero = mask % 2 == 1
has_bit mask (suc place) = has_bit (mask / 2) place

-- `mask | (1 << place)`.
unfoldable pub set_bit : ℕ → ℕ → ℕ
set_bit mask zero = if mask % 2 == 1 then mask else mask + 1
set_bit mask (suc place) = mask % 2 + 2 * set_bit (mask / 2) place

unfoldable pub accepts_source : CompiledRule → ℕ → Bool
unfolding bit has_bit
accepts_source rule source =
    rule.wildcard_source
    || elim (bit source) [ none ↦ false | some place ↦ has_bit rule.source_mask place ]

-- The fold over the names; without a bit for one of them the rule does not compile.
unfoldable pub mask_of : List Text → ℕ → Option ℕ
unfolding source_id bit set_bit
mask_of [] mask = some mask
mask_of (value ∷ values) mask = elim (bit (source_id value)) [
  | none ↦ none
  | some place ↦ mask_of values (set_bit mask place)
]

compiled_band : IntensityBand → CompiledIntensityBand
compiled_band b = record { min = b.min; max = b.max; interruption_level = b.interruption_level }

-- 20000.0
abbrev pub far : F64
far = 0x40d3880000000000

-- The parts of a rule beside its category and sources.
abbrev Thresholds : Type 0
Thresholds = F64 × ℕ × F64 × List CompiledIntensityBand

thresholds : AlertRule → Thresholds
unfolding compiled_band
thresholds (warning_rule selection bands) = (0, 0, far, map compiled_band bands)
thresholds (report_rule selection min_magnitude) = (min_magnitude, 0, far, [])
thresholds (weather_rule selection min_severity radius) = (0, min_severity, radius, [])
thresholds (tsunami_rule selection min_severity) = (0, min_severity, far, [])
thresholds (typhoon_rule selection distance) = (0, 0, distance, [])

compiled : AlertRule → ℕ → Bool → CompiledRule
unfolding thresholds rule_category
compiled rule mask wildcard =
    let (min_magnitude, min_severity, distance_km, bands) = thresholds rule in
    record {
      category = rule_category rule;
      source_mask = mask;
      wildcard_source = wildcard;
      min_magnitude = min_magnitude;
      min_severity = min_severity;
      distance_km = distance_km;
      intensity_bands = bands;
    }

selected : AlertRule → SourceSelection → Option CompiledRule
unfolding compiled mask_of
selected rule all_sources = some (compiled rule 0 true)
selected rule (include ids) = elim (mask_of ids 0) [
  | none ↦ none
  | some mask ↦ some (compiled rule mask false)
]

-- `compile_rule`; its one error is `none`.
unfoldable pub compile_rule : AlertRule → Option CompiledRule
unfolding selected rule_sources
compile_rule rule = selected rule (rule_sources rule)

from_be_bytes : ℕ → List ℕ → ℕ
from_be_bytes value [] = value
from_be_bytes value (byte ∷ bytes) = from_be_bytes (256 * value + byte) bytes

unfoldable pub region_id : Platform → Text → ℕ
unfolding as_bytes from_be_bytes
region_id p value =
    from_be_bytes 0 (take 8 (p.sha256 (as_bytes (text "disaster-alert:region-id:v1" ++ 0 ∷ value))))

insert_sorted : ℕ → List ℕ → List ℕ
insert_sorted x [] = x ∷ []
insert_sorted x (y ∷ ys) =
    let later = insert_sorted x ys in
    if ltb x y then x ∷ y ∷ ys else if x == y then y ∷ ys else y ∷ later

-- `sort_unstable` and `dedup` of numbers.
unfoldable pub sorted_set : List ℕ → List ℕ
unfolding insert_sorted
sorted_set [] = []
sorted_set (x ∷ xs) = insert_sorted x (sorted_set xs)

-- The numbers of the names that are not empty when normalized.
unfoldable pub region_ids_of : Platform → List Text → List ℕ
unfolding normalize is_empty region_id filter sorted_set
region_ids_of p names = sorted_set (
    map (region_id p) (filter (λ name. not (is_empty name)) (map (normalize p.to_lowercase) names)))
