-- ===== src/Incident/Record/Bounds.antt =====
-- The bounds that every incident keeps.
use disaster_alert.Prelude.{
  ℕ, ◌+◌, ◌-◌, ◌^◌, ◌≤◌, ◌<◌, ◌≡◌, refl, Bool, true, some, List, [], ◌∷◌, ◌++◌, ◌==◌, length, tail,
  any, Bool-cases, Option-cases, inl, inr, arith, length-append, length-tail, All, All-append, ◌≢◌,
}
use mathlib.Core.Path.{subst}
use disaster_alert.Prelude.Finds.{find?-eq-none, length-modify_first, All-modify_first}
use disaster_alert.Prelude.Int.{ℤ}
use disaster_alert.Text.{Text}
use disaster_alert.Event.{DisasterEvent}
use disaster_alert.Event.Digest.{Platform}
use disaster_alert.Incident.{
  max_incident_timeline, max_latest_sources, max_source_event_keys, max_stream_watermarks,
  max_current_report_updates, is_applied, IncidentId, bounded_event,
}
use disaster_alert.Incident.Watermark.{
  IncidentStreamWatermark, matches, commit, from_event, remember_update, remember, contains,
}
use disaster_alert.Incident.Watermark.Monotone.{length-commit}
use disaster_alert.Incident.Record.Streams.{
  OnePerStream, watermark_stream, event_stream, push_watermark-OnePerStream,
  push_latest-OnePerStream,
}
use disaster_alert.Incident.Record.{
  IncidentReportSummary, IncidentRecord, same_stream, push_bounded, push_timeline, push_latest,
  push_watermark, watermarks_outcome, applied_record, apply_outcome, new, remember_keys,
  remember_source_event_keys,
}

abbrev pub FewUpdates : IncidentStreamWatermark → Type 0
FewUpdates w = length w.current_report_updates ≤ max_current_report_updates

pub record IsBounded (r : IncidentRecord) : Type 0 where
  pub keys : length r.source_event_keys ≤ max_source_event_keys
  pub latest : length r.latest_by_source ≤ max_latest_sources
  pub watermarks : length r.stream_watermarks ≤ max_stream_watermarks
  pub timeline : length r.timeline ≤ max_incident_timeline
  pub version : r.state_version < 2 ^ 64
  pub updates : All FewUpdates r.stream_watermarks
  pub streams : OnePerStream watermark_stream r.stream_watermarks
  pub sources : OnePerStream event_stream r.latest_by_source

length-push_bounded {ℓ} :
    {A : Type ℓ} (limit : ℕ) (xs : List A) (x : A)
    → 0 < limit
    → length xs ≤ limit
    → length (push_bounded limit xs x) ≤ limit
unfolding push_bounded
length-push_bounded limit xs x h k =
    ground (arith, length-append (tail xs) (x ∷ []), length-append xs (x ∷ []), length-tail xs)

length-push_timeline :
    (xs : List IncidentReportSummary) (x : IncidentReportSummary)
    → length xs ≤ max_incident_timeline
    → length (push_timeline xs x) ≤ max_incident_timeline
unfolding push_timeline
length-push_timeline xs x h = ground (arith, length-push_bounded max_incident_timeline xs x)

length-push_latest :
    (xs : List DisasterEvent) (e : DisasterEvent)
    → length xs ≤ max_latest_sources
    → length (push_latest xs e) ≤ max_latest_sources
unfolding push_latest
length-push_latest xs e h = ground (
  arith,
  length-push_bounded max_latest_sources xs e,
  length-modify_first (same_stream e) (λ (_ : DisasterEvent). e) xs,
)

module _ (p : Platform) where
  from_event-FewUpdates : (e : DisasterEvent) → FewUpdates (from_event p e)
  unfolding from_event remember_update remember contains any
  from_event-FewUpdates e = omega arith

  push_watermark-FewUpdates :
      (ws : List IncidentStreamWatermark) (e : DisasterEvent)
      → All FewUpdates ws
      → All FewUpdates (push_watermark p ws e)
  unfolding push_watermark
  push_watermark-FewUpdates ws e h = elim (Bool-cases (any (λ w. matches w e) ws)) [
    | inl old ↦ rw old (All-modify_first _ _ FewUpdates ws (λ w. length-commit p w e) h)
    | inr new ↦
        rw new (All-append FewUpdates ws (from_event p e ∷ []) h (from_event-FewUpdates e, tt))
  ]

  -- A new watermark is made only where there is room.
  length-push_watermark :
      (r : IncidentRecord) (e : DisasterEvent)
      → length r.stream_watermarks ≤ max_stream_watermarks
      → is_applied (watermarks_outcome p r.stream_watermarks e) ≡ true
      → length (push_watermark p r.stream_watermarks e) ≤ max_stream_watermarks
  unfolding push_watermark watermarks_outcome
  length-push_watermark r e h a = ground (
    arith,
    length-append r.stream_watermarks (from_event p e ∷ []),
    length-modify_first (λ (w : IncidentStreamWatermark). matches w e)
        (λ (w : IncidentStreamWatermark). commit p w e) r.stream_watermarks,
    find?-eq-none (λ (w : IncidentStreamWatermark). matches w e) r.stream_watermarks,
  )

  -- A new incident is within all of its bounds.
  pub new-IsBounded :
      (id : IncidentId) (e : DisasterEvent) (now_ms : ℤ) → IsBounded (new p id e now_ms)
  unfolding new any
  new-IsBounded id e now_ms = record {
    keys = omega arith;
    latest = omega arith;
    watermarks = omega arith;
    timeline = omega arith;
    version = omega arith;
    updates = (from_event-FewUpdates _, tt);
    streams = (refl, tt);
    sources = (refl, tt);
  }

  applied_record-IsBounded :
      (r : IncidentRecord) (e : DisasterEvent) (now_ms : ℤ)
      → IsBounded r
      → r.state_version ≢ 2 ^ 64 - 1
      → is_applied (watermarks_outcome p r.stream_watermarks e) ≡ true
      → IsBounded (applied_record p r e now_ms)
  unfolding applied_record
  applied_record-IsBounded r e now_ms b v a = record {
    keys = b.keys;
    latest = length-push_latest r.latest_by_source e b.latest;
    watermarks = length-push_watermark r e b.watermarks a;
    timeline = length-push_timeline r.timeline _ b.timeline;
    version = ground (arith, b.version);
    updates = push_watermark-FewUpdates r.stream_watermarks e b.updates;
    streams = push_watermark-OnePerStream p r.stream_watermarks e b.streams;
    sources = push_latest-OnePerStream r.latest_by_source e b.sources;
  }

  -- Applying a report keeps an incident within all of its bounds: the lengths of its five kinds of
  -- lists, the 64-bit version, and one watermark and one latest event for each stream.
  pub apply_outcome-IsBounded :
      (r : IncidentRecord) (e : DisasterEvent) (now_ms : ℤ)
      → IsBounded r
      → IsBounded (apply_outcome p r e now_ms).0
  unfolding apply_outcome
  apply_outcome-IsBounded r e now_ms b = elim (Bool-cases (r.state_version == 2 ^ 64 - 1)) [
    | inl full ↦ rw full b
    | inr room ↦
        elim (Bool-cases
          (is_applied (watermarks_outcome p r.stream_watermarks (bounded_event e)))) [
            | inl yes_applied ↦
                rw (room, yes_applied)
                  (applied_record-IsBounded r (bounded_event e) now_ms b (ground arith) yes_applied)
            | inr not_applied ↦ rw (room, not_applied) b
          ]
  ]

length-remember_keys :
    (known additions keys out : List Text)
    → remember_keys known additions keys ≡ some out
    → length known + length additions ≤ max_source_event_keys
    → length known + length out ≤ max_source_event_keys
unfolding remember_keys
length-remember_keys known additions [] out h k = ground arith
length-remember_keys known additions (key ∷ keys) out h k = ground (
  arith,
  length-append additions (key ∷ []),
  length-remember_keys known additions keys out,
  length-remember_keys known (additions ++ key ∷ []) keys out,
)

-- Where an incident is within its bounds and the keys are accepted, the incident with the keys is
-- within its bounds.
pub remember_source_event_keys-IsBounded :
    (r r' : IncidentRecord) (keys : List Text) (changed : Bool)
    → IsBounded r
    → remember_source_event_keys r keys ≡ some (r', changed)
    → IsBounded r'
unfolding remember_source_event_keys
remember_source_event_keys-IsBounded r r' keys changed b h =
    elim (Option-cases (remember_keys r.source_event_keys [] keys)) [
      | inl none_left ↦ absurd (ground arith)
      | inr (out, e) ↦
          subst IsBounded {x = record r { source_event_keys = r.source_event_keys ++ out }}
            (ground arith)
            (record {
              keys = ground (
                arith,
                length-append r.source_event_keys out,
                length-remember_keys r.source_event_keys [] keys out,
              );
              latest = b.latest;
              watermarks = b.watermarks;
              timeline = b.timeline;
              version = b.version;
              updates = b.updates;
              streams = b.streams;
              sources = b.sources;
            })
    ]
