-- ===== src/Incident/Watermark/Replays.antt =====
-- A report that a watermark has taken is not taken again.
use disaster_alert.Prelude.{
  ◌≤◌, ◌<◌, ◌≡◌, ◌≢◌, ◌⊎◌, Bool, true, ◌&&◌, List, [], ◌∷◌, ◌++◌, arith, length, tail, ◌==◌, any,
}
use disaster_alert.Text.{Text, text_eq_refl}
use disaster_alert.Event.{DisasterEvent}
use disaster_alert.Event.Digest.{Platform, event_update_id}
use disaster_alert.Incident.{max_current_report_updates, applied, replay}
use disaster_alert.Incident.Watermark.Monotone.{commit-Committed}
use disaster_alert.Incident.Watermark.{
  IncidentStreamWatermark, contains, remember, remember_update, is_safety_transition,
  has_seen_update, outcome, advance, commit,
}

contains-append_last : (us : List Text) (d : Text) → contains (us ++ d ∷ []) d ≡ true
unfolding contains any
contains-append_last [] d = ground (arith, text_eq_refl d)
contains-append_last (u ∷ us) d = ground (arith, contains-append_last us d)

pub contains-remember :
    (us : List Text) (d : Text) (oldest : Bool)
    → (contains us d ≡ true) ⊎ (length us < max_current_report_updates) ⊎ (oldest ≡ true)
    → contains (remember us d oldest) d ≡ true
unfolding remember
contains-remember us d oldest h =
    ground (arith, contains-append_last us d, contains-append_last (tail us) d)

module _ (p : Platform) (w : IncidentStreamWatermark) (e : DisasterEvent) where
  room :
      outcome p w e ≡ applied
      → w.report_num ≤ e.report_num
      → (contains (advance p w e).current_report_updates (event_update_id p e) ≡ true)
        ⊎ (length (advance p w e).current_report_updates < max_current_report_updates)
        ⊎ ((is_safety_transition w e && e.report_num == (advance p w e).report_num) ≡ true)
  unfolding outcome advance is_safety_transition
  room a h = ground arith

  -- The digest of a report that is applied stays with the watermark, unless the report is stale.
  has_seen_update-commit :
      outcome p w e ≡ applied
      → w.report_num ≤ e.report_num
      → has_seen_update p (commit p w e) e ≡ true
  unfolding has_seen_update commit remember_update
  has_seen_update-commit a h =
      contains-remember (advance p w e).current_report_updates (event_update_id p e) _ (room a h)

  -- A report that is applied and is not older than the watermark counts as a replay afterwards.
  pub replay_of_applied :
      outcome p w e ≡ applied → w.report_num ≤ e.report_num → outcome p (commit p w e) e ≡ replay
  unfolding outcome
  replay_of_applied a h = ground (arith, commit-Committed p w e, has_seen_update-commit a h)

  -- A report that a watermark's stream has applied is not applied a second time, whatever its
  -- number.
  pub not_applied_twice : outcome p w e ≡ applied → outcome p (commit p w e) e ≢ applied
  unfolding outcome
  not_applied_twice a = ground (arith, commit-Committed p w e, has_seen_update-commit a)
