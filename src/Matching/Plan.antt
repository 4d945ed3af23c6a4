-- ===== src/Matching/Plan.antt =====
-- src/matching/plan.rs: where the subscriptions that an event may concern are looked for.
--
-- `grid_disk` stands for H3: the cells within so many rings about a point at a resolution, `none` where
-- the coordinate is refused. A literal of `f64` is written as its bit pattern.
pub mod Candidates
use disaster_alert.Prelude.{
  ℕ, ◌+◌, ◌%◌, ◌^◌, Bool, true, false, ◌||◌, Option, none, some, List, [], ◌∷◌, ◌++◌, ◌==◌,
  if◌then◌else◌,
}
use disaster_alert.Text.{Text}
use disaster_alert.Event.{
  DisasterEvent, DisasterCategory, earthquake_warning, earthquake_report, weather_warning, tsunami,
  typhoon, category_eq,
}
use disaster_alert.Event.Float.{F64, f64_le}
use disaster_alert.Event.Digest.{Platform}
use disaster_alert.Intensity.{MatchOps}
use disaster_alert.Matching.{source_id, region_ids_of}

pub data MatchScope : Type 0 where
  cells : ℕ → List ℕ → MatchScope
  regions : List ℕ → MatchScope
  broad_scope : MatchScope

pub record MatchPlan : Type 0 where
  pub category : DisasterCategory
  pub source_id : ℕ
  pub scopes : List MatchScope

-- 15.0 and 300.0
resolution_for : F64 → ℕ
unfolding f64_le
resolution_for radius_km =
    if f64_le radius_km 0x402e000000000000
    then 2
    else if f64_le radius_km 0x4072c00000000000
    then 1
    else 0

-- 20000.0, 2000.0, 0.0 and 3000.0
maximum_candidate_radius : DisasterCategory → F64
maximum_candidate_radius earthquake_warning = 0x40d3880000000000
maximum_candidate_radius earthquake_report = 0x40d3880000000000
maximum_candidate_radius weather_warning = 0x409f400000000000
maximum_candidate_radius tsunami = 0
maximum_candidate_radius typhoon = 0x40a7700000000000

-- 0.3, 5.5 and 100.0
edge_length_km : ℕ → F64
edge_length_km resolution_index =
    if resolution_index == 2
    then 0x3fd3333333333333
    else if resolution_index == 1
    then 0x4016000000000000
    else 0x4059000000000000

is_earthquake : DisasterCategory → Bool
unfolding category_eq
is_earthquake category =
    category_eq category earthquake_warning || category_eq category earthquake_report

unfoldable pub broad_scopes : DisasterCategory → List MatchScope
unfolding is_earthquake
broad_scopes category = if is_earthquake category then broad_scope ∷ [] else []

unfoldable pub region_scopes : List ℕ → List MatchScope
region_scopes [] = []
region_scopes (id ∷ ids) = regions (id ∷ ids) ∷ []

-- A plan without a scope looks everywhere.
unfoldable pub or_broad : List MatchScope → List MatchScope
or_broad [] = broad_scope ∷ []
or_broad (scope ∷ scopes) = scope ∷ scopes

module _ (o : MatchOps) (grid_disk : F64 → F64 → ℕ → ℕ → Option (List ℕ)) where
  -- The rings that reach the radius, and two more.
  ring_for : F64 → ℕ → ℕ
  unfolding edge_length_km
  ring_for radius resolution_index =
      o.as_unsigned 32 (o.ceil (o.floats.div radius (edge_length_km resolution_index))) + 2

  cells_at : F64 → F64 → F64 → Option (List MatchScope)
  unfolding resolution_for ring_for
  cells_at latitude longitude radius =
      elim (grid_disk latitude longitude (resolution_for radius)
        (ring_for radius (resolution_for radius))) [
          | none ↦ none
          | some found ↦ some (cells (resolution_for radius) found ∷ [])
        ]

  -- The cells of an event with a point; the two categories that have cells are retired.
  unfoldable pub cell_scopes : DisasterCategory → Option F64 → Option F64 → Option (List MatchScope)
  unfolding category_eq cells_at maximum_candidate_radius
  cell_scopes category none longitude = some []
  cell_scopes category (some latitude) none = some []
  cell_scopes category (some latitude) (some longitude) =
      if category_eq category weather_warning || category_eq category typhoon
      then cells_at latitude longitude (maximum_candidate_radius category)
      else some []

  -- `MatchPlan::for_event`; its one error is `none`.
  unfoldable pub for_event : Platform → DisasterEvent → Option MatchPlan
  for_event p event = elim (cell_scopes event.category event.latitude event.longitude) [
    | none ↦ none
    | some found ↦ some (record {
      category = event.category;
      source_id = source_id event.source;
      scopes = or_broad (
          broad_scopes event.category
          ++ region_scopes (region_ids_of p event.affected_regions)
          ++ found);
    })
  ]
