-- ===== src/Examples/Matching.antt =====
-- The theorems on matching at a report of the source 6 and a subscription to it.
use disaster_alert.Prelude.{
  ℕ, ◌≡◌, ◌↔◌, refl, true, false, Option, none, some, List, [], ◌∷◌, any, arith,
}
use disaster_alert.Prelude.Int.{pos}
use disaster_alert.Text.{text}
use disaster_alert.Event.{DisasterEvent}
use disaster_alert.Event.Float.{F64, f64_le}
use disaster_alert.Delivery.{DeliveryRow, InterruptionLevel}
use disaster_alert.Intensity.{MatchOps}
use disaster_alert.Subscription.{AlertRule, report_rule, include}
use disaster_alert.Subscription.{rule_sources}
use disaster_alert.Matching.{
  CompiledSubscription, CompiledTarget, CompiledRule, compile_rule, accepts_source, sorted_set,
}
use disaster_alert.Matching.Masks.{selects, compile_rule-accepts_source}
use disaster_alert.Matching.Postings.{posting_block, posting_offset, from_posting, for_subscription}
use disaster_alert.Matching.Postings.Ids.{from_posting_iff}
use disaster_alert.Matching.Postings.Keys.{broad, has_key, Under}
use disaster_alert.Matching.Engine.{
  regions_intersect, consider, event_match_context, match_compiled_with_context,
}
use disaster_alert.Matching.Engine.Regions.{contains, regions_intersect_iff}
use disaster_alert.Matching.Engine.Nearest.{Matched, match_compiled_with_context-Matched}
use disaster_alert.Matching.Plan.{MatchPlan, for_event}
use disaster_alert.Matching.Plan.Candidates.{is_broad, match_compiled_with_context-candidate}
use disaster_alert.Examples.{plain, no_floats, first_report}

abbrev ops : MatchOps
ops = record {
  floats = no_floats;
  log10 = λ x. x;
  mul_add = λ x y z. x;
  round = λ x. x;
  ceil = λ x. x;
  as_i32 = λ x. pos 0;
  as_unsigned = λ w x. 0;
  from_i32 = λ n. 0;
}

abbrev located_report : DisasterEvent
located_report = record first_report {
  source = text "wolfx.cenc_eqlist";
  latitude = some 0x403e000000000000;
  longitude = some 0x405a400000000000;
  magnitude = some 0x4014000000000000;
}

abbrev report_only : AlertRule
report_only = report_rule (include (text "wolfx.cenc_eqlist" ∷ [])) 0x4012000000000000

-- The place of the source's bit is 5.
abbrev report_compiled : CompiledRule
report_compiled = record {
  category = located_report.category;
  source_mask = 32;
  wildcard_source = false;
  min_magnitude = 0x4012000000000000;
  min_severity = 0;
  distance_km = 0x40d3880000000000;
  intensity_bands = [];
}

report_compiles : compile_rule report_only ≡ some report_compiled
unfolding compile_rule
report_compiles = refl

compile_rule-accepts_source_example :
    accepts_source report_compiled 6 ≡ selects (rule_sources report_only) 6
compile_rule-accepts_source_example =
    compile_rule-accepts_source report_only report_compiled 6 report_compiles

from_posting_iff_example :
    (from_posting 5 17 ≡ some 327697) ↔ ((5 ≡ posting_block 327697) × (17 ≡ posting_offset 327697))
from_posting_iff_example = from_posting_iff 327697 5 17 (omega arith)

regions_intersect_iff_example :
    (regions_intersect (sorted_set (3 ∷ 1 ∷ [])) (sorted_set (2 ∷ 3 ∷ [])) ≡ true)
    ↔ ((x : ℕ) × (contains (3 ∷ 1 ∷ []) x ≡ true) × (contains (2 ∷ 3 ∷ []) x ≡ true))
regions_intersect_iff_example = regions_intersect_iff (3 ∷ 1 ∷ []) (2 ∷ 3 ∷ [])

abbrev home : CompiledTarget
home = record {
  ordinal = 0;
  latitude_e7 = pos 300000000;
  longitude_e7 = pos 1050000000;
  latitude_radians = 0x3fe0c152382d7366;
  sin_latitude = 0x3fe0000000000000;
  cos_latitude = 0x3febb67ae8584caa;
  region_ids = 3 ∷ [];
  h3_cells = 1 ∷ 2 ∷ 3 ∷ [];
}

abbrev reporting : CompiledSubscription
reporting = record {
  subscription_id = 327697;
  destination_id = 9;
  generation = 1;
  targets = home ∷ record home { ordinal = 1 } ∷ [];
  rules = report_compiled ∷ [];
}

abbrev report_row : DeliveryRow
report_row = record {
  destination_id = 9;
  subscription_id = 327697;
  generation = 1;
  target_ordinal = 0;
  match_kind = 1;
  interruption_level = InterruptionLevel.passive;
  distance_m = 0;
  intensity_cent = 0;
}

report_matches :
    match_compiled_with_context ops reporting
      (event_match_context ops plain located_report 0x40d3880000000000)
    ≡ some report_row
unfolding match_compiled_with_context event_match_context accepts_source f64_le consider
report_matches = refl

match_compiled_with_context-Matched_example :
    Matched ops reporting
      (event_match_context ops plain located_report 0x40d3880000000000)
      report_row
match_compiled_with_context-Matched_example =
    match_compiled_with_context-Matched ops reporting
      (event_match_context ops plain located_report 0x40d3880000000000) report_row report_matches

abbrev no_cells : F64 → F64 → ℕ → ℕ → Option (List ℕ)
no_cells latitude longitude resolution ring = none

match_compiled_with_context-candidate_example :
    (plan : MatchPlan) × (for_event ops no_cells plain located_report ≡ some plan)
    × (any is_broad plan.scopes ≡ true)
    × (s : Option ℕ) × Under plan.source_id s
    × (has_key (broad plan.category s (posting_block 327697)) (for_subscription reporting) ≡ true)
match_compiled_with_context-candidate_example =
    match_compiled_with_context-candidate ops no_cells plain located_report 0x40d3880000000000
      reporting report_row report_matches
