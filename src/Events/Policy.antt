-- ===== src/Events/Policy.antt =====
-- src/events/coordinator.rs, `should_match`: which applied reports go to the matcher.
use disaster_alert.Prelude.{
  ◌-◌, ◌≤◌, ◌≡◌, refl, Bool, true, false, Option, none, if◌then◌else◌, ◌⊎◌, ◌↔◌,
}
use disaster_alert.Prelude.Int.{ℤ}
use disaster_alert.Event.{DisasterEvent, is_retired}
use disaster_alert.Incident.Record.{IncidentRecord}
use disaster_alert.Events.{EventPolicy, stale_origin, previous_report}

-- What the policy keeps from the matcher, whatever the incident is.
pub Suppressed : EventPolicy → DisasterEvent → ℤ → Type 0
Suppressed policy e now_ms =
    (is_retired e.category ≡ true)
    ⊎ ((e.training ≡ true) × (policy.ignore_training ≡ true))
    ⊎ ((e.cancel ≡ true) × (policy.ignore_cancel ≡ true))
    ⊎ (stale_origin e policy.stale_origin_seconds now_ms ≡ true)

-- A reason to match: a cancellation, a first report, or an update that is far enough ahead or final.
pub Due : EventPolicy → Option IncidentRecord → DisasterEvent → Type 0
Due policy current e =
    (e.cancel ≡ true)
    ⊎ (current ≡ none)
    ⊎ ((policy.push_updates ≡ true)
        × ((e.final_report ≡ true)
            ⊎ ((1 ≤ e.report_num - previous_report current e)
                × (policy.update_min_report_gap ≤ e.report_num - previous_report current e))))

false-not-true : false ≡ true → ⊥
false-not-true h = cc

split :
    {P Q : Type 0} (b d : Bool)
    → ((b ≡ true) ↔ P)
    → ((d ≡ true) ↔ Q)
    → ((if b then false else d) ≡ true) ↔ ((P → ⊥) × Q)
split true d (f, g) k = ((λ h. absurd (false-not-true h)), (λ h. absurd (h.0 (f refl))))
split false d (f, g) (h, k) = ((λ e. ((λ x. false-not-true (g x)), h e)), (λ e. k e.1))
