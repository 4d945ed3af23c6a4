-- ===== src/Examples/Reports.antt =====
-- The theorems on keys, dates, watermarks and incidents at the example reports.
use disaster_alert.Prelude.{
  ◌+◌, ◌≡◌, ◌≢◌, ◌≤◌, ◌<◌, ◌++◌, ◌⊎◌, refl, true, not, ◌&&◌, ◌||◌, some, none, any, [], ◌∷◌, arith,
}
use disaster_alert.Prelude.Int.{pos, max_ℤ}
use disaster_alert.Text.{text, text_eq}
use disaster_alert.Event.{event_key}
use disaster_alert.Event.Key.{event_key-injective}
use disaster_alert.Event.Time.Calendar.{days_in_month}
use disaster_alert.Event.Time.Days.{
  Date, IsDate, next_day, day_number, day_after_epoch, day_number-next_day,
  day_number-day_after_epoch,
}
use disaster_alert.Incident.{applied, replay, bounded_event}
use disaster_alert.Incident.Bounded.{cut, bounded_event-cut, event_key-bounded_event}
use disaster_alert.Incident.Record.{IncidentRecord, new, apply_outcome, remember_source_event_keys}
use disaster_alert.Incident.Record.Bounds.{
  IsBounded, new-IsBounded, apply_outcome-IsBounded, remember_source_event_keys-IsBounded,
}
use disaster_alert.Incident.Record.Effects.{apply_outcome_effect, apply_outcome_twice}
use disaster_alert.Incident.Watermark.{IncidentStreamWatermark, outcome, commit, from_event}
use disaster_alert.Incident.Watermark.Monotone.{stale_report, terminal_guard}
use disaster_alert.Incident.Watermark.Streams.{
  receive_all, receive_all_summary, is_closed, closes, greatest,
}
use disaster_alert.Incident.{derive}
use disaster_alert.Event.{DisasterEvent}
use disaster_alert.Events.{reduces, reduce_incident_at}
use disaster_alert.Events.Redelivery.{reduce_incident_at_twice}
use disaster_alert.Incident.Watermark.Replays.{replay_of_applied, not_applied_twice}
use disaster_alert.Examples.{
  plain, first_report, second_report, cancelled_late, first_incident, first_watermark,
}

same_key : event_key first_report ≡ event_key second_report
unfolding event_key
same_key = refl

event_key-injective_example :
    (first_report.category ≡ second_report.category)
    × (first_report.source ≡ second_report.source)
    × (first_report.event_id ≡ second_report.event_id)
event_key-injective_example = event_key-injective first_report second_report same_key

abbrev leap_day : Date
leap_day = record { year = 2024; month = 2; day = 29 }

leap_day-IsDate : IsDate leap_day
unfolding days_in_month
leap_day-IsDate = omega arith

day_number-next_day_example : day_number (next_day leap_day) ≡ day_number leap_day + 1
day_number-next_day_example = day_number-next_day leap_day leap_day-IsDate

day_number-day_after_epoch_example :
    (day_number (day_after_epoch 60) ≡ 60) × IsDate (day_after_epoch 60)
day_number-day_after_epoch_example = day_number-day_after_epoch 60

bounded_event-cut_example : bounded_event first_report ≡ cut first_report
bounded_event-cut_example = bounded_event-cut first_report

event_key-bounded_event_example : event_key (bounded_event first_report) ≡ event_key first_report
event_key-bounded_event_example = event_key-bounded_event first_report

second-applied : outcome plain first_watermark second_report ≡ applied
unfolding outcome from_event
second-applied = refl

in_order : first_watermark.report_num ≤ second_report.report_num
unfolding from_event
in_order = omega arith

replay_of_applied_example :
    outcome plain (commit plain first_watermark second_report) second_report ≡ replay
replay_of_applied_example =
    replay_of_applied plain first_watermark second_report second-applied in_order

not_applied_twice_example :
    outcome plain (commit plain first_watermark second_report) second_report ≢ applied
not_applied_twice_example = not_applied_twice plain first_watermark second_report second-applied

-- A late cancellation closes the stream, and leaves its number.
receive_all_summary_example :
    let w' = receive_all plain first_watermark (second_report ∷ cancelled_late ∷ []) in
    (w'.cancel ≡ (
      first_watermark.cancel
      || any (λ (e : DisasterEvent). e.cancel) (second_report ∷ cancelled_late ∷ [])))
    × (is_closed w'
        ≡ (is_closed first_watermark || any closes (second_report ∷ cancelled_late ∷ [])))
    × (first_watermark.report_num ≤ w'.report_num)
    × ((is_closed w' ≡ true)
        ⊎ (w'.report_num
            ≡ greatest first_watermark.report_num (second_report ∷ cancelled_late ∷ [])))
receive_all_summary_example =
    receive_all_summary plain first_watermark (second_report ∷ cancelled_late ∷ [])

reduce_incident_at_twice_example :
    let begun : IncidentRecord =
      new plain (derive plain (event_key first_report)) first_report (pos 1000) in
    (reduce_incident_at plain none first_report (pos 1000)
      ≡ reduces (record { incident = begun; outcome = applied }))
    × (reduce_incident_at plain (some begun) first_report (pos 2000)
        ≡ reduces (record { incident = begun; outcome = replay }))
reduce_incident_at_twice_example = reduce_incident_at_twice plain first_report (pos 1000) (pos 2000)

abbrev second_watermark : IncidentStreamWatermark
second_watermark = commit plain first_watermark second_report

late : cancelled_late.report_num < second_watermark.report_num
unfolding commit from_event
late = omega arith

late-applied : outcome plain second_watermark cancelled_late ≡ applied
unfolding outcome commit from_event
late-applied = refl

stale_report_example :
    (((cancelled_late.cancel && not second_watermark.cancel)
        || (cancelled_late.final_report && not second_watermark.final_report))
      ≡ true)
    × ((commit plain second_watermark cancelled_late).report_num ≡ second_watermark.report_num)
    × ((commit plain second_watermark cancelled_late).level ≡ second_watermark.level)
stale_report_example = stale_report plain second_watermark cancelled_late late late-applied

terminal_guard_example :
    ((second_watermark.cancel ≡ true) → cancelled_late.cancel ≡ true)
    × ((second_watermark.final_report ≡ true)
        → (cancelled_late.final_report || cancelled_late.cancel) ≡ true)
terminal_guard_example = terminal_guard plain second_watermark cancelled_late late-applied

first_incident-IsBounded : IsBounded first_incident
first_incident-IsBounded = new-IsBounded plain (text "incident_1") first_report (pos 1000)

apply_outcome-IsBounded_example :
    IsBounded (apply_outcome plain first_incident second_report (pos 2000)).0
apply_outcome-IsBounded_example =
    apply_outcome-IsBounded plain first_incident second_report (pos 2000) first_incident-IsBounded

abbrev with_key : IncidentRecord
with_key = record first_incident {
  source_event_keys = first_incident.source_event_keys ++ text "k" ∷ [];
}

remembered : remember_source_event_keys first_incident (text "k" ∷ []) ≡ some (with_key, true)
unfolding remember_source_event_keys new text_eq
remembered = refl

remember_source_event_keys-IsBounded_example : IsBounded with_key
remember_source_event_keys-IsBounded_example =
    remember_source_event_keys-IsBounded first_incident with_key (text "k" ∷ []) true
      first_incident-IsBounded remembered

apply_outcome_twice_example :
    let r' = (apply_outcome plain first_incident second_report (pos 2000)).0 in
    ((apply_outcome plain r' second_report (pos 3000)).0 ≡ r')
    × ((apply_outcome plain r' second_report (pos 3000)).1 ≢ applied)
apply_outcome_twice_example =
    apply_outcome_twice plain first_incident second_report (pos 2000) (pos 3000)

apply_outcome_effect_example :
    let (r', result) = apply_outcome plain first_incident second_report (pos 2000) in
    ((result ≢ applied) × (r' ≡ first_incident))
    ⊎ ((result ≡ applied)
        × (r'.state_version ≡ first_incident.state_version + 1)
        × (r'.updated_at_ms ≡ max_ℤ first_incident.updated_at_ms (pos 2000))
        × (r'.id ≡ first_incident.id)
        × (r'.first_seen_at_ms ≡ first_incident.first_seen_at_ms)
        × (r'.source_event_keys ≡ first_incident.source_event_keys)
        × (r'.pending_match_jobs ≡ first_incident.pending_match_jobs)
        × (r'.has_matched_subscribers ≡ first_incident.has_matched_subscribers))
apply_outcome_effect_example = apply_outcome_effect plain first_incident second_report (pos 2000)
