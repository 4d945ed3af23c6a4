-- ===== src/Storage/Correlation.antt =====
-- src/storage/fjall.rs: finding the incident to which an event of another source belongs.
--
-- A key is the list of its bytes. A range of a keyspace is its entries between two keys.
pub mod Resolution
use disaster_alert.Prelude.{
  ℕ, zero, suc, ◌+◌, ◌-◌, ◌*◌, ◌^◌, Bool, true, false, not, ◌&&◌, ◌||◌, Option, none, some, List,
  [], ◌∷◌, ◌++◌, ◌==◌, leb, if◌then◌else◌, length, take, any, filter,
}
use disaster_alert.Prelude.Int.{ℤ, pos, negsuc, pos_part, neg_part, saturating_add, saturating_sub}
use disaster_alert.Text.{Text, text, text_eq}
use disaster_alert.Event.{
  DisasterCategory, earthquake_warning, earthquake_report, DisasterEvent, event_key,
}
use disaster_alert.Event.Float.{F64, f64_lt}
use disaster_alert.Event.Digest.{Platform, as_bytes, to_be_bytes}
use disaster_alert.Event.Time.{parse_event_epoch}
use disaster_alert.Geo.{FloatOps, vincenty_distance, abs}
use disaster_alert.Incident.{IncidentId, IncidentCapacity, parse, derive}
use disaster_alert.Incident.Record.{IncidentRecord}
use disaster_alert.Storage.{
  Store, Error, capacity, alias_invalid, alias_without_record, correlation_truncated,
  correlation_invalid, correlation_without_record, Result, ok, err, ◌>>=◌, ◌>>◌, ensure, or_error,
  category_code,
}
use disaster_alert.Storage.Keyspace.{Map, get, text_key, text_before}

abbrev pub correlation_window_seconds : ℤ
correlation_window_seconds = pos 120

abbrev max_correlation_candidates : ℕ
max_correlation_candidates = 1024

unfoldable pub is_earthquake : DisasterCategory → Bool
is_earthquake earthquake_warning = true
is_earthquake earthquake_report = true
is_earthquake _ = false

unfoldable pub incident_alias : Platform → Text → Text
unfolding as_bytes
incident_alias p event_key =
    p.sha256 (as_bytes (text "disaster-alert:incident-alias:v1") ++ (0 ∷ as_bytes event_key))

unfoldable pub incident_reverse_prefix : IncidentId → Text
unfolding as_bytes
incident_reverse_prefix id = as_bytes id ++ 0 ∷ []

unfoldable pub incident_alias_reverse_key : IncidentId → Text → Text
unfolding incident_reverse_prefix
incident_alias_reverse_key id alias = incident_reverse_prefix id ++ alias

-- `epoch.max(0).to_be_bytes()`, the id and the stream.
unfoldable pub correlation_key : ℤ → Text → Text → Text
unfolding to_be_bytes as_bytes
correlation_key epoch id stream = to_be_bytes 8 (pos_part epoch) ++ (as_bytes id ++ stream)

unfoldable pub from_be_bytes : ℕ → Text → ℕ
from_be_bytes acc [] = acc
from_be_bytes acc (b ∷ bs) = from_be_bytes (acc * 256 + b) bs

-- The first eight bytes of a key; they hold no negative number.
correlation_epoch : Text → Result ℤ
unfolding from_be_bytes
correlation_epoch key =
    if leb 8 (length key)
    then ok (pos (from_be_bytes 0 (take 8 key)))
    else err correlation_truncated

unfoldable pub correlation_stream : Platform → DisasterEvent → Text
unfolding as_bytes category_code
correlation_stream p e = p.sha256 (
    as_bytes (text "disaster-alert:incident-correlation-stream:v1")
    ++ (0 ∷ category_code e.category ∷ as_bytes e.source)
    ++ (0 ∷ as_bytes e.event_id))

unfoldable pub correlation_reverse_key : IncidentId → Text → Text
unfolding incident_reverse_prefix
correlation_reverse_key id stream = incident_reverse_prefix id ++ stream

-- `abs_diff` of two times.
abs_diff : ℤ → ℤ → ℕ
abs_diff a b =
    let x = pos_part a + neg_part b in
    let y = pos_part b + neg_part a in if leb x y then y - x else x - y

infixl 5 ◌>>=?◌
abbrev ◌>>=?◌ {ℓ κ} : {A : Type ℓ} {B : Type κ} → Option A → (A → Option B) → Option B
none >>=? f = none
some a >>=? f = f a

abbrev Best : Type 0
Best = Option (IncidentId × F64)

module _ (p : Platform) (o : FloatOps) where
  -- `Some(delta)` where the magnitudes are near enough; a missing one counts as no difference.
  magnitude_delta : Option F64 → Option F64 → Option F64
  unfolding abs f64_lt
  magnitude_delta (some left) (some right) =
      let delta = abs (o.sub left right) in if f64_lt (o.from_u64 1) delta then none else some delta
  magnitude_delta _ _ = some (o.from_u64 0)

  unfoldable pub correlation_score : DisasterEvent → DisasterEvent → F64 → Option F64
  unfolding is_earthquake text_eq vincenty_distance f64_lt magnitude_delta
  correlation_score current candidate time_delta_seconds =
      if not (is_earthquake current.category) || text_eq current.source candidate.source
      then none
      else current.latitude >>=? λ lat1. current.longitude >>=? λ lon1.
          candidate.latitude >>=? λ lat2. candidate.longitude >>=? λ lon2.
          vincenty_distance o lat1 lon1 lat2 lon2 >>=? λ distance.
          if f64_lt (o.from_u64 100) distance
          then none
          else magnitude_delta current.magnitude candidate.magnitude >>=? λ delta. some (
              o.add
                (o.add (o.div time_delta_seconds (o.from_u64 120))
                  (o.div distance (o.from_u64 100)))
                (o.div delta (o.from_u64 1)))

  better : Best → IncidentId → F64 → Best
  unfolding f64_lt
  better none id score = some (id, score)
  better (some (best_id, best_score)) id score =
      if f64_lt score best_score then some (id, score) else some (best_id, best_score)

  score_sources : IncidentId → DisasterEvent → F64 → List DisasterEvent → Best → Best
  unfolding correlation_score better
  score_sources id event time_delta [] best = best
  score_sources id event time_delta (current ∷ rest) best =
      score_sources id event time_delta rest (elim (correlation_score current event time_delta) [
        | none ↦ best
        | some score ↦ better best id score
      ])

  consider : Store → DisasterEvent → ℤ → Text → IncidentId → Best → Result Best
  unfolding correlation_epoch parse get any text_eq abs_diff score_sources
  consider s event occurred_epoch key value best = do
    candidate_epoch ← correlation_epoch key
    id ← or_error (parse value) correlation_invalid
    found ← or_error (get s.incidents id) correlation_without_record
    ok (
        if any (λ current. text_eq current.source event.source) found.latest_by_source
        then best
        else score_sources id event (o.from_u64 (abs_diff candidate_epoch occurred_epoch))
            found.latest_by_source best)

  -- The loop over the entries of the time window; `candidates` counts those before.
  scan_candidates : Store → DisasterEvent → ℤ → ℕ → Map Text IncidentId → Best → Result Best
  unfolding consider
  scan_candidates s event occurred_epoch candidates [] best = ok best
  scan_candidates s event occurred_epoch candidates ((key, value) ∷ entries) best =
      if leb max_correlation_candidates candidates
      then err (capacity IncidentCapacity.correlation_candidates)
      else consider s event occurred_epoch key value best >>= λ best'.
          scan_candidates s event occurred_epoch (candidates + 1) entries best'

  repeat : ℕ → ℕ → Text
  repeat zero b = []
  repeat (suc n) b = b ∷ repeat n b

  best_id : Best → Option IncidentId
  best_id none = none
  best_id (some (id, score)) = some id

  -- The entries within the time window, by their keys.
  correlation_window : Store → ℤ → Map Text IncidentId
  unfolding correlation_key saturating_add saturating_sub repeat filter text_before
  correlation_window s occurred_epoch =
      let start =
        correlation_key (saturating_sub occurred_epoch correlation_window_seconds) []
          (repeat 32 0) in
      let end =
        correlation_key (saturating_add occurred_epoch correlation_window_seconds) (repeat 22 b'~')
          (repeat 32 255) in
      filter
        (λ (entry : Text × IncidentId).
          not (text_before entry.0 start) && not (text_before end entry.0))
        s.incident_correlation

  -- An event without a time has no correlation.
  correlated_at : Store → DisasterEvent → Option ℤ → Result (Option IncidentId)
  unfolding correlation_window scan_candidates best_id
  correlated_at s event none = ok none
  correlated_at s event (some occurred_epoch) =
      scan_candidates s event occurred_epoch 0 (correlation_window s occurred_epoch) none
      >>= λ best. ok (best_id best)

  find_correlated_incident : Store → DisasterEvent → Result (Option IncidentId)
  unfolding is_earthquake parse_event_epoch correlated_at
  find_correlated_incident s event =
      if not (is_earthquake event.category)
      then ok none
      else correlated_at s event (parse_event_epoch event)

  or_derived : DisasterEvent → Option IncidentId → Result IncidentId
  unfolding event_key derive
  or_derived event none = ok (derive p (event_key event))
  or_derived event (some id) = ok id

  aliased : Store → DisasterEvent → Option IncidentId → Result IncidentId
  unfolding parse get find_correlated_incident or_derived
  aliased s event none = find_correlated_incident s event >>= or_derived event
  aliased s event (some value) = do
    id ← or_error (parse value) alias_invalid
    found ← or_error (get s.incidents id) alias_without_record
    ok id

  -- The incident of an event: by its key, else by correlation, else a new one.
  unfoldable pub resolve_incident : Store → DisasterEvent → Result IncidentId
  unfolding event_key incident_alias get aliased
  resolve_incident s event =
      aliased s event (get s.incident_aliases (incident_alias p (event_key event)))
