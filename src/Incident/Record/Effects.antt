-- ===== src/Incident/Record/Effects.antt =====
-- What one report changes in an incident.
use disaster_alert.Prelude.{
  ◌+◌, ◌≡◌, ◌≢◌, refl, true, false, none, some, List, [], find?, Option-cases, inl, inr, arith, ◌⊎◌,
}
use disaster_alert.Prelude.Finds.{
  none-of-find?, any-of-find?, find?-modify_first, find?-append_last,
}
use disaster_alert.Prelude.Int.{ℤ, max_ℤ}
use disaster_alert.Text.{text_eq_refl}
use disaster_alert.Event.{DisasterEvent}
use disaster_alert.Event.Key.{category_eq_iff}
use disaster_alert.Event.Digest.{Platform, event_update_id}
use disaster_alert.Incident.{
  IncidentApplyOutcome, applied, replay, rejected, capacity_exceeded, is_applied, bounded_event,
}
use disaster_alert.Incident.Watermark.{
  IncidentStreamWatermark, matches, outcome, commit, from_event, remember_update, has_seen_update,
  advance,
}
use disaster_alert.Incident.Watermark.Replays.{not_applied_twice, contains-remember}
use disaster_alert.Incident.Record.{
  IncidentRecord, push_watermark, watermarks_outcome, applied_record, apply_outcome,
}

module _ (p : Platform) (r : IncidentRecord) (e : DisasterEvent) (now_ms : ℤ) where
  -- A report that is not applied leaves the incident as it was; one that is applied raises the
  -- version by one, moves the time of the last update to the later of the two times, and keeps the
  -- identifier, the first time, the event keys, the pending jobs and the flag of matched
  -- subscribers.
  pub apply_outcome_effect :
      let (r', result) = apply_outcome p r e now_ms in
      ((result ≢ applied) × (r' ≡ r))
      ⊎ ((result ≡ applied)
          × (r'.state_version ≡ r.state_version + 1)
          × (r'.updated_at_ms ≡ max_ℤ r.updated_at_ms now_ms)
          × (r'.id ≡ r.id)
          × (r'.first_seen_at_ms ≡ r.first_seen_at_ms)
          × (r'.source_event_keys ≡ r.source_event_keys)
          × (r'.pending_match_jobs ≡ r.pending_match_jobs)
          × (r'.has_matched_subscribers ≡ r.has_matched_subscribers))
  unfolding apply_outcome applied_record
  apply_outcome_effect = ground arith

module _ (p : Platform) (e : DisasterEvent) where
  pub matches-from_event : matches (from_event p e) e ≡ true
  unfolding matches from_event remember_update
  matches-from_event =
      ground (
        arith,
        category_eq_iff e.category e.category,
        text_eq_refl e.source,
        text_eq_refl e.event_id,
      )

  -- The report that opens a stream is a replay for it.
  pub from_event_seen : outcome p (from_event p e) e ≡ replay
  unfolding outcome from_event remember_update has_seen_update
  from_event_seen = ground (arith, contains-remember [] (event_update_id p e) false)

  matches-commit :
      (w : IncidentStreamWatermark) → matches w e ≡ true → matches (commit p w e) e ≡ true
  unfolding matches commit advance remember_update
  matches-commit w h = h

  -- The watermark of the report's stream, behind a report that was applied.
  find?-push_watermark :
      (ws : List IncidentStreamWatermark)
      → ((w : IncidentStreamWatermark) × (find? (λ v. matches v e) ws ≡ some w)
          × (find? (λ v. matches v e) (push_watermark p ws e) ≡ some (commit p w e)))
        ⊎ ((find? (λ v. matches v e) ws ≡ none)
            × (find? (λ v. matches v e) (push_watermark p ws e) ≡ some (from_event p e)))
  unfolding push_watermark
  find?-push_watermark ws = elim (Option-cases (find? (λ v. matches v e) ws)) [
    | inl missing ↦
        let new = none-of-find? (λ v. matches v e) ws missing in
        inr (
          missing,
          rw new (find?-append_last (λ v. matches v e) ws (from_event p e) new matches-from_event),
        )
    | inr (w, hit) ↦ inl (
      w,
      hit,
      rw (any-of-find? (λ v. matches v e) ws w hit)
          (find?-modify_first (λ v. matches v e) (λ v. commit p v e) ws w matches-commit hit),
    )
  ]

is_applied-eq_false : (o : IncidentApplyOutcome) → o ≢ applied → is_applied o ≡ false
is_applied-eq_false applied h = absurd (h refl)
is_applied-eq_false _ h = refl

applied-of-is_applied : (o : IncidentApplyOutcome) → is_applied o ≡ true → o ≡ applied
applied-of-is_applied applied h = refl
applied-of-is_applied replay h = cc
applied-of-is_applied rejected h = cc
applied-of-is_applied (capacity_exceeded c) h = cc

module _ (p : Platform) (e : DisasterEvent) where
  watermarks_outcome_twice :
      (ws : List IncidentStreamWatermark)
      → is_applied (watermarks_outcome p ws e) ≡ true
      → is_applied (watermarks_outcome p (push_watermark p ws e) e) ≡ false
  unfolding watermarks_outcome
  watermarks_outcome_twice ws a = elim (find?-push_watermark p e ws) [
    | inl (w, before, after) ↦
        rw (after, watermarks_outcome)
          (is_applied-eq_false _ (
            not_applied_twice p w e
              (applied-of-is_applied _ (rw (before, watermarks_outcome) at a))))
    | inr (before, after) ↦ rw (after, watermarks_outcome, from_event_seen p e) refl
  ]

module _ (p : Platform) (r : IncidentRecord) (e : DisasterEvent) (now_ms later_ms : ℤ) where
  -- A second delivery of the same report to an incident, at any later time, is not applied and
  -- leaves the incident as it is.
  pub apply_outcome_twice :
      let r' = (apply_outcome p r e now_ms).0 in
      ((apply_outcome p r' e later_ms).0 ≡ r') × ((apply_outcome p r' e later_ms).1 ≢ applied)
  unfolding apply_outcome applied_record
  apply_outcome_twice =
      ground (arith, watermarks_outcome_twice p (bounded_event e) r.stream_watermarks)
