-- ===== src/Events/Redelivery.antt =====
-- The report that begins an incident, delivered a second time.
use disaster_alert.Prelude.{◌≡◌, refl, false, some, none, [], ◌∷◌, ◌==◌, arith, any, ap, ◌-◌, ◌^◌}
use mathlib.Core.List.{append-nil}
use disaster_alert.Prelude.Int.{ℤ}
use disaster_alert.Text.{Text, text_eq_refl}
use disaster_alert.Event.{DisasterEvent, event_key}
use disaster_alert.Event.Digest.{Platform}
use disaster_alert.Incident.{applied, replay, derive, bounded_event, IncidentId}
use disaster_alert.Incident.Bounded.{event_key-bounded_event}
use disaster_alert.Incident.Watermark.{from_event, contains}
use disaster_alert.Incident.Record.{
  IncidentRecord, new, apply_outcome, remember_keys, remember_source_event_keys, watermarks_outcome,
}
use disaster_alert.Incident.Record.Effects.{matches-from_event, from_event_seen}
use disaster_alert.Events.{reduces, project, reduce_incident_at}

known_key : (key : Text) → remember_keys (key ∷ []) [] (key ∷ []) ≡ some []
unfolding remember_keys contains any
known_key key = ground (arith, text_eq_refl key)

remember-known :
    (r : IncidentRecord) (key : Text)
    → r.source_event_keys ≡ key ∷ []
    → remember_source_event_keys r (key ∷ []) ≡ some (r, false)
unfolding remember_source_event_keys
remember-known r key h = ground (arith, h, known_key key, append-nil r.source_event_keys)

opened : (p : Platform) (e : DisasterEvent) → watermarks_outcome p (from_event p e ∷ []) e ≡ replay
unfolding watermarks_outcome
opened p e = rw (watermarks_outcome, matches-from_event p e) (from_event_seen p e)

module _ (p : Platform) (e : DisasterEvent) (now_ms : ℤ) where
  new-key :
      (id : IncidentId)
      → remember_source_event_keys (new p id e now_ms) (event_key e ∷ [])
        ≡ some (new p id e now_ms, false)
  unfolding new
  new-key id =
      remember-known (new p id e now_ms) (event_key e)
        (ap (λ key. key ∷ []) (event_key-bounded_event e))

  new-seen :
      (id : IncidentId)
      → watermarks_outcome p (new p id e now_ms).stream_watermarks (bounded_event e) ≡ replay
  unfolding new
  new-seen id = opened p (bounded_event e)

  new-room : (id : IncidentId) → ((new p id e now_ms).state_version == 2 ^ 64 - 1) ≡ false
  unfolding new
  new-room id = refl

  new_twice :
      (id : IncidentId) (later_ms : ℤ)
      → apply_outcome p (new p id e now_ms) e later_ms ≡ (new p id e now_ms, replay)
  unfolding apply_outcome
  new_twice id later_ms = rw (new-room id, new-seen id) refl

  -- A report without an incident begins the incident of its key, and when it is delivered again, at
  -- any time, it is a replay that leaves this incident as it is.
  pub reduce_incident_at_twice :
      (later_ms : ℤ)
      → let begun : IncidentRecord = new p (derive p (event_key e)) e now_ms in
        (reduce_incident_at p none e now_ms
          ≡ reduces (record { incident = begun; outcome = applied }))
        × (reduce_incident_at p (some begun) e later_ms
            ≡ reduces (record { incident = begun; outcome = replay }))
  unfolding reduce_incident_at project
  reduce_incident_at_twice later_ms =
      let id = derive p (event_key e) in
      (rw (new-key id) refl, rw (new_twice id later_ms, new-key id) refl)
