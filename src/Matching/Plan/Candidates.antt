-- ===== src/Matching/Plan/Candidates.antt =====
-- A subscription that an event matches is among those that the event's plan looks for.
use disaster_alert.Prelude.{
  ℕ, ◌≡◌, refl, Bool, true, false, ◌&&◌, Option, none, some, List, [], ◌∷◌, ◌++◌, any, arith, ap,
}
use disaster_alert.Event.{
  DisasterEvent, DisasterCategory, earthquake_warning, earthquake_report, weather_warning, tsunami,
  typhoon, is_retired,
}
use disaster_alert.Event.Float.{F64}
use disaster_alert.Event.Digest.{Platform}
use disaster_alert.Intensity.{MatchOps}
use disaster_alert.Delivery.{DeliveryRow}
use disaster_alert.Matching.{
  CompiledSubscription, CompiledRule, source_id, accepts_source, region_ids_of,
}
use disaster_alert.Matching.Postings.{for_subscription, posting_block}
use disaster_alert.Matching.Postings.Keys.{broad, has_key, Under, for_subscription-broad}
use disaster_alert.Matching.Engine.{
  event_match_context, match_compiled_with_context, rule_matches, row_of,
}
use disaster_alert.Matching.Engine.Nearest.{match_compiled_with_context-Matched}
use disaster_alert.Matching.Plan.{
  MatchScope, cells, regions, broad_scope, MatchPlan, for_event, broad_scopes, cell_scopes,
  or_broad, region_scopes, is_earthquake,
}

pub is_broad : MatchScope → Bool
is_broad (cells resolution_index ids) = false
is_broad (regions ids) = false
is_broad broad_scope = true

broad_scopes-live :
    (category : DisasterCategory)
    → is_retired category ≡ false
    → broad_scopes category ≡ broad_scope ∷ []
unfolding broad_scopes is_retired is_earthquake
broad_scopes-live earthquake_warning live = refl
broad_scopes-live earthquake_report live = refl
broad_scopes-live weather_warning live = absurd (ground (arith, live))
broad_scopes-live tsunami live = absurd (ground (arith, live))
broad_scopes-live typhoon live = absurd (ground (arith, live))

module _ (o : MatchOps) (grid_disk : F64 → F64 → ℕ → ℕ → Option (List ℕ)) where
  cell_scopes-live :
      (category : DisasterCategory) (latitude longitude : Option F64)
      → is_retired category ≡ false
      → cell_scopes o grid_disk category latitude longitude ≡ some []
  unfolding cell_scopes is_retired
  cell_scopes-live category none longitude live = refl
  cell_scopes-live category (some latitude) none live = refl
  cell_scopes-live earthquake_warning (some latitude) (some longitude) live = refl
  cell_scopes-live earthquake_report (some latitude) (some longitude) live = refl
  cell_scopes-live weather_warning (some latitude) (some longitude) live =
      absurd (ground (arith, live))
  cell_scopes-live tsunami (some latitude) (some longitude) live = absurd (ground (arith, live))
  cell_scopes-live typhoon (some latitude) (some longitude) live = absurd (ground (arith, live))

  -- The plan of an event of a live category has the broad scope.
  abbrev Planned : Platform → DisasterEvent → Type 0
  Planned p event =
      (plan : MatchPlan) × (for_event o grid_disk p event ≡ some plan)
      × (any is_broad plan.scopes ≡ true)
      × (plan.category ≡ event.category)
      × (plan.source_id ≡ source_id event.source)

  for_event-Planned :
      (p : Platform) (event : DisasterEvent) → is_retired event.category ≡ false → Planned p event
  unfolding for_event or_broad any is_broad
  for_event-Planned p event live = (
    record {
      category = event.category;
      source_id = source_id event.source;
      scopes = broad_scope ∷ region_scopes (region_ids_of p event.affected_regions) ++ [];
    },
    rw
        (
          for_event,
          cell_scopes-live event.category event.latitude event.longitude live,
          broad_scopes-live event.category live,
        )
        refl,
    refl,
    refl,
    refl,
  )

  rule_matches-accepts :
      (rule : CompiledRule) (event : DisasterEvent) (source : ℕ)
      → rule_matches rule event source ≡ true
      → accepts_source rule source ≡ true
  unfolding rule_matches
  rule_matches-accepts rule event source h = and-left _ _ _ h
    where
      and-left : (a b c : Bool) → ((a && b) && c) ≡ true → a ≡ true
      and-left a b c k = ground (arith, k)

  -- When an event matches a subscription, the event has a plan with the broad scope, for its category
  -- and its source, and the keys of the subscription contain the broad key of that category, in the
  -- block of the row's subscription, under that source or under none.
  pub match_compiled_with_context-candidate :
      (p : Platform) (event : DisasterEvent) (warning_max_distance_km : F64)
      (subscription : CompiledSubscription) (row : DeliveryRow)
      → match_compiled_with_context o subscription
          (event_match_context o p event warning_max_distance_km)
        ≡ some row
      → (plan : MatchPlan) × (for_event o grid_disk p event ≡ some plan)
        × (any is_broad plan.scopes ≡ true)
        × (s : Option ℕ) × Under plan.source_id s
        × (has_key
              (broad plan.category s (posting_block row.subscription_id))
              (for_subscription subscription)
            ≡ true)
  unfolding event_match_context row_of
  match_compiled_with_context-candidate p event cap subscription row h =
      let context = event_match_context o p event cap in
      let matched = match_compiled_with_context-Matched o subscription context row h in
      let (plan, planned, is_wide, same_category, same_source) =
        for_event-Planned p event matched.live in
      let (s, under, has) =
        for_subscription-broad subscription event.category (source_id event.source) matched.rule
          matched.first_rule
          (rule_matches-accepts matched.rule event (source_id event.source) matched.accepted) in
      let same_id : row.subscription_id ≡ subscription.subscription_id =
        ap (λ (r : DeliveryRow). r.subscription_id) matched.shown in
      (plan, planned, is_wide, s, rw same_source under, rw (same_category, same_id) has)
