-- ===== src/Matching/Engine.antt =====
-- src/matching/engine.rs: the match of one subscription with an event.
--
-- A literal of `f64` is written as its bit pattern. A match reads the event and the
-- compiled subscription only.
pub mod Regions
pub mod Nearest
use disaster_alert.Prelude.{
  ℕ, ◌^◌, Bool, true, false, not, ◌&&◌, Option, none, some, List, [], ◌∷◌, ◌==◌, ltb, leb,
  if◌then◌else◌, map, filter, find?,
}
use disaster_alert.Prelude.Int.{ℤ}
use disaster_alert.Event.Digest.{Platform}
use disaster_alert.Event.{
  DisasterEvent, DisasterCategory, earthquake_warning, earthquake_report, weather_warning, tsunami,
  typhoon, category_eq, is_retired,
}
use disaster_alert.Event.Float.{F64, f64_lt, f64_le, f64_max, f64_min, clamp}
use disaster_alert.Intensity.{MatchOps, estimate_intensity}
use disaster_alert.Delivery.{DeliveryRow, InterruptionLevel, passive, active, critical}
use disaster_alert.Matching.{
  CompiledSubscription, CompiledTarget, CompiledRule, CompiledIntensityBand, accepts_source,
  region_ids_of, source_id,
}

pub record EventCoordinate : Type 0 where
  pub latitude_radians : F64
  pub longitude : F64
  pub cos_latitude : F64

pub record EventMatchContext : Type 0 where
  pub event : DisasterEvent
  pub warning_max_distance_km : F64
  pub source_id : ℕ
  pub region_ids : List ℕ
  pub coordinate : Option EventCoordinate

abbrev pub unwrap_or {ℓ} : {A : Type ℓ} → A → Option A → A
unwrap_or a none = a
unwrap_or a (some b) = b

-- The walk along the right side for one head of the left; `rest` goes on behind that head.
meets : ℕ → (List ℕ → Bool) → List ℕ → Bool
meets x rest [] = false
meets x rest (y ∷ ys) =
    let further = meets x rest ys in
    if ltb x y then rest (y ∷ ys) else if x == y then true else further

unfoldable pub regions_intersect : List ℕ → List ℕ → Bool
unfolding meets
regions_intersect [] right = false
regions_intersect (x ∷ left) right = meets x (regions_intersect left) right

unfoldable pub bark_level : ℕ → InterruptionLevel
bark_level level = if leb 3 level then critical else if leb 2 level then active else passive

unfoldable pub rule_matches : CompiledRule → DisasterEvent → ℕ → Bool
rule_matches rule event event_source =
    accepts_source rule event_source
    && f64_le rule.min_magnitude (unwrap_or 0 event.magnitude)
    && leb rule.min_severity event.level

-- What a target comes to: `?` ends the match, `continue` passes to the next target.
pub record Offer : Type 0 where
  pub distance : F64
  pub match_kind : ℕ
  pub estimated : F64
  pub interruption_level : InterruptionLevel

pub data Step : Type 0 where
  stops passes : Step
  offers : Offer → Step

pub data Located : Type 0 where
  nowhere elsewhere : Located
  located : F64 → ℕ → Located

within : F64 → Option F64 → Located
unfolding f64_le
within limit none = nowhere
within limit (some distance) = if f64_le distance limit then located distance 1 else nowhere

locate : DisasterCategory → Bool → F64 → Option F64 → Located
unfolding within
locate earthquake_warning administrative limit none = nowhere
locate earthquake_warning administrative limit (some distance) = located distance 1
locate earthquake_report administrative limit none = nowhere
locate earthquake_report administrative limit (some distance) = located distance 1
locate weather_warning true limit distance = located (unwrap_or 0 distance) 2
locate weather_warning false limit distance = within limit distance
locate tsunami true limit distance = located (unwrap_or 0 distance) 2
locate tsunami false limit distance = elsewhere
locate typhoon administrative limit distance = within limit distance

is_warning : DisasterCategory → Bool
unfolding category_eq
is_warning category = category_eq category earthquake_warning

band_for : ℕ → List CompiledIntensityBand → Option CompiledIntensityBand
unfolding find?
band_for value = find? (λ band. leb band.min value && leb value band.max)

module _ (o : MatchOps) where
  open o use {floats, mul_add, round, as_unsigned, from_i32}

  -- The literals are 1e7, 2.0, 1.0, 0.0 and 6371.0088; `powi(2)` is a product.
  haversine_precomputed : EventCoordinate → CompiledTarget → F64
  unfolding clamp
  haversine_precomputed event target =
      let delta_latitude = floats.sub target.latitude_radians event.latitude_radians in
      let target_longitude = floats.div (from_i32 target.longitude_e7) 0x416312d000000000 in
      let delta_longitude = floats.to_radians (floats.sub target_longitude event.longitude) in
      let sin_lat = floats.sin (floats.div delta_latitude 0x4000000000000000) in
      let sin_lon = floats.sin (floats.div delta_longitude 0x4000000000000000) in
      let a =
        clamp
          (floats.add (floats.mul sin_lat sin_lat) (
            floats.mul (floats.mul event.cos_latitude target.cos_latitude)
              (floats.mul sin_lon sin_lon)))
          0 0x3ff0000000000000 in
      floats.mul (floats.mul 0x40b8e30240b78034 0x4000000000000000)
        (floats.atan2 (floats.sqrt a) (floats.sqrt (floats.sub 0x3ff0000000000000 a)))

  distance_to : Option EventCoordinate → CompiledTarget → Option F64
  unfolding haversine_precomputed
  distance_to none target = none
  distance_to (some coordinate) target = some (haversine_precomputed coordinate target)

  -- The intensity that a warning is estimated to have; 0 for the other categories.
  estimated_at : DisasterEvent → F64 → Option F64
  unfolding is_warning f64_max estimate_intensity
  estimated_at event distance =
      let depth = f64_max (unwrap_or 0 event.depth_km) 0 in
      let hypocentral = floats.sqrt (mul_add distance distance (floats.mul depth depth)) in
      if is_warning event.category
      then elim event.magnitude [
        | none ↦ none
        | some magnitude ↦ some (estimate_intensity o magnitude hypocentral)
      ]
      else some 0

  -- `none` where no band holds the estimate.
  level_at : DisasterEvent → CompiledRule → F64 → Option InterruptionLevel
  unfolding category_eq bark_level band_for
  level_at event rule estimated =
      if category_eq event.category earthquake_report
      then some passive
      else elim rule.intensity_bands [
        | [] ↦ some (bark_level event.level)
        | b ∷ bands ↦ elim (band_for (as_unsigned 8 (round estimated)) (b ∷ bands)) [
          | none ↦ none
          | some band ↦ some band.interruption_level
        ]
      ]

  module _ (rule : CompiledRule) (context : EventMatchContext) where
    offer_at : F64 → ℕ → Step
    unfolding is_warning f64_lt f64_min estimated_at level_at
    offer_at distance match_kind =
        if is_warning context.event.category
          && f64_lt (f64_min rule.distance_km context.warning_max_distance_km) distance
        then passes
        else elim (estimated_at context.event distance) [
          | none ↦ stops
          | some estimated ↦ elim (level_at context.event rule estimated) [
            | none ↦ passes
            | some level ↦ offers (record {
              distance = distance;
              match_kind = match_kind;
              estimated = estimated;
              interruption_level = level;
            })
          ]
        ]

    offer_of : Located → Step
    unfolding offer_at
    offer_of nowhere = stops
    offer_of elsewhere = passes
    offer_of (located distance match_kind) = offer_at distance match_kind

    unfoldable pub consider : CompiledTarget → Step
    unfolding regions_intersect distance_to locate offer_of
    consider target = offer_of (
        locate context.event.category (regions_intersect target.region_ids context.region_ids)
          rule.distance_km (distance_to context.coordinate target))

    -- A target that is chosen, with its distance, level and estimate.
    abbrev pub Best : Type 0
    Best = CompiledTarget × Offer

    nearer : Offer → Option Best → Bool
    nearer offer none = true
    nearer offer (some (target, current)) = f64_lt offer.distance current.distance

    unfoldable pub match_targets : List CompiledTarget → Option Best → Option Best
    unfolding nearer
    match_targets [] best = best
    match_targets (target ∷ targets) best = elim (consider target) [
      | stops ↦ none
      | passes ↦ match_targets targets best
      | offers offer ↦
          match_targets targets (if nearer offer best then some (target, offer) else best)
    ]

  -- 1000.0, 2^32 - 1, 100.0 and 2^16 - 1.
  unfoldable pub row_of : CompiledSubscription → CompiledTarget × Offer → DeliveryRow
  unfolding clamp
  row_of subscription (target, offer) = record {
    destination_id = subscription.destination_id;
    subscription_id = subscription.subscription_id;
    generation = subscription.generation;
    target_ordinal = target.ordinal;
    match_kind = offer.match_kind;
    interruption_level = offer.interruption_level;
    distance_m =
        as_unsigned 32
          (clamp (round (floats.mul offer.distance 0x408f400000000000)) 0 0x41efffffffe00000);
    intensity_cent =
        as_unsigned 16
          (clamp (round (floats.mul offer.estimated 0x4059000000000000)) 0 0x40efffe000000000);
  }

  unfoldable pub match_compiled_with_context :
      CompiledSubscription → EventMatchContext → Option DeliveryRow
  unfolding match_targets row_of find? rule_matches category_eq is_retired
  match_compiled_with_context subscription context =
      if is_retired context.event.category
      then none
      else elim (find? (λ rule. category_eq rule.category context.event.category)
          subscription.rules) [
            | none ↦ none
            | some rule ↦
                if not (rule_matches rule context.event context.source_id)
                then none
                else elim (match_targets rule context subscription.targets none) [
                  | none ↦ none
                  | some best ↦ some (row_of subscription best)
                ]
          ]

  -- `EventMatchContext::new`.
  coordinate_of : Option F64 → Option F64 → Option EventCoordinate
  coordinate_of none longitude = none
  coordinate_of (some latitude) none = none
  coordinate_of (some latitude) (some longitude) = some (record {
    latitude_radians = floats.to_radians latitude;
    longitude = longitude;
    cos_latitude = floats.cos (floats.to_radians latitude);
  })

  unfoldable pub event_match_context : Platform → DisasterEvent → F64 → EventMatchContext
  unfolding region_ids_of source_id coordinate_of
  event_match_context p event warning_max_distance_km = record {
    event = event;
    warning_max_distance_km = warning_max_distance_km;
    source_id = source_id event.source;
    region_ids = region_ids_of p event.affected_regions;
    coordinate = coordinate_of event.latitude event.longitude;
  }
