-- ===== src/Storage/Correlation/Resolution.antt =====
-- The incident that an event is resolved to.
use mathlib.Core.Path.{subst}
use disaster_alert.Prelude.{
  ℕ, ◌+◌, ◌≡◌, refl, sym, ◌∙◌, not, Option, none, some, List, [], ◌∷◌, leb, any, Bool-cases, inl,
  inr, arith, ap, ◌⊎◌,
}
use disaster_alert.Prelude.Int.{ℤ}
use disaster_alert.Text.{Text, text_eq}
use disaster_alert.Event.{DisasterEvent, event_key}
use disaster_alert.Event.Digest.{Platform}
use disaster_alert.Event.Float.{F64, f64_lt}
use disaster_alert.Event.Time.{parse_event_epoch}
use disaster_alert.Geo.{FloatOps}
use disaster_alert.Incident.{IncidentId, derive, parse}
use disaster_alert.Incident.Record.{IncidentRecord}
use disaster_alert.Storage.{Store, Error, ok, err, or_error}
use disaster_alert.Storage.Keyspace.{Map, get, text_key}
use disaster_alert.Storage.Incidents.Records.{bind-ok}
use disaster_alert.Storage.Correlation.{
  Best, better, score_sources, consider, scan_candidates, best_id, correlated_at,
  correlation_window, or_derived, aliased, find_correlated_incident, resolve_incident,
  correlation_score, correlation_epoch, abs_diff, max_correlation_candidates, incident_alias,
  is_earthquake,
}

abbrev pub Stored : Store → IncidentId → Type 0
Stored s id = (r : IncidentRecord) × (get s.incidents id ≡ some r)

-- The best candidate so far is a stored incident.
BestStored : Store → Best → Type 0
BestStored s none = Unit {0}
BestStored s (some (id, score)) = Stored s id

or_error-some : {A : Type 0} (m : Option A) (e : Error) (a : A) → or_error m e ≡ ok a → m ≡ some a
or_error-some none e a h = cc
or_error-some (some b) e a h = ground arith

ok-injective : {A : Type 0} (a b : A) → ok a ≡ ok b → a ≡ b
ok-injective a b h = ground arith

some-injective : {A : Type 0} (a b : A) → some a ≡ some b → a ≡ b
some-injective a b h = ground arith

none-not-some : {A : Type 0} {a : A} → none ≡ some a → ⊥
none-not-some h = cc

err-not-ok : {A : Type 0} (e : Error) (a : A) → err e ≡ ok a → ⊥
err-not-ok e a h = cc

module _ (p : Platform) (o : FloatOps) (s : Store) where
  better-BestStored :
      (best : Best) (id : IncidentId) (score : F64)
      → Stored s id
      → BestStored s best
      → BestStored s (better p o best id score)
  unfolding better BestStored
  better-BestStored none id score here b = here
  better-BestStored (some (best_id, best_score)) id score here b =
      elim (Bool-cases (f64_lt score best_score)) [ inl h ↦ rw h here | inr h ↦ rw h b ]

  none-BestStored : BestStored s none
  unfolding BestStored
  none-BestStored = tt

  best_id-Stored :
      (best : Best) (id : IncidentId) → BestStored s best → best_id p o best ≡ some id → Stored s id
  unfolding best_id BestStored
  best_id-Stored none id b h = cc
  best_id-Stored (some (k, score)) id b h = subst (Stored s) (some-injective k id h) b

  scored-BestStored :
      (x : Option F64) (best : Best) (id : IncidentId)
      → Stored s id
      → BestStored s best
      → BestStored s (elim x [ none ↦ best | some score ↦ better p o best id score ])
  scored-BestStored none best id here b = b
  scored-BestStored (some score) best id here b = better-BestStored best id score here b

  score_sources-BestStored :
      (id : IncidentId) (e : DisasterEvent) (time_delta : F64) (rest : List DisasterEvent)
      (best : Best)
      → Stored s id
      → BestStored s best
      → BestStored s (score_sources p o id e time_delta rest best)
  unfolding score_sources
  score_sources-BestStored id e time_delta [] best here b = b
  score_sources-BestStored id e time_delta (current ∷ rest) best here b =
      score_sources-BestStored id e time_delta rest _ here
        (scored-BestStored (correlation_score p o current e time_delta) best id here b)

  consider-BestStored :
      (e : DisasterEvent) (t : ℤ) (key value : Text) (best best' : Best)
      → consider p o s e t key value best ≡ ok best'
      → BestStored s best
      → BestStored s best'
  unfolding consider
  consider-BestStored e t key value best best' run b =
      let (epoch, _, run1) = bind-ok (correlation_epoch key) _ run in
      let (id, _, run2) = bind-ok (or_error (parse value) Error.correlation_invalid) _ run1 in
      let (found, h, run3) =
        bind-ok (or_error (get s.incidents id) Error.correlation_without_record) _ run2 in
      let here = or_error-some (get s.incidents id) Error.correlation_without_record found h in
      elim (Bool-cases (any (λ current. text_eq current.source e.source) found.latest_by_source)) [
        | inl same ↦ subst (BestStored s) (ok-injective best best' (rw same at run3)) b
        | inr other ↦ subst (BestStored s) (ok-injective _ best' (rw other at run3)) (
            score_sources-BestStored id e (o.from_u64 (abs_diff epoch t)) found.latest_by_source
              best (found, here) b)
      ]

  scan-BestStored :
      (e : DisasterEvent) (t : ℤ) (n : ℕ) (entries : Map Text IncidentId) (best best' : Best)
      → scan_candidates p o s e t n entries best ≡ ok best'
      → BestStored s best
      → BestStored s best'
  unfolding scan_candidates
  scan-BestStored e t n [] best best' run b = subst (BestStored s) (ok-injective best best' run) b
  scan-BestStored e t n ((key, value) ∷ entries) best best' run b =
      elim (Bool-cases (leb max_correlation_candidates n)) [
        | inl full ↦ absurd (err-not-ok _ best' (rw full at run))
        | inr room ↦
            let (next, h, run') = bind-ok (consider p o s e t key value best) _ (rw room at run) in
            scan-BestStored e t (n + 1) entries next best' run'
              (consider-BestStored e t key value best next h b)
      ]

  correlated_at-Stored :
      (e : DisasterEvent) (t : Option ℤ) (id : IncidentId)
      → correlated_at p o s e t ≡ ok (some id)
      → Stored s id
  unfolding correlated_at
  correlated_at-Stored e none id run = absurd (none-not-some (ok-injective _ _ run))
  correlated_at-Stored e (some t) id run =
      let (best, h, run') =
        bind-ok (scan_candidates p o s e t 0 (correlation_window p o s t) none) _ run in
      best_id-Stored best id
        (scan-BestStored e t 0 (correlation_window p o s t) none best h none-BestStored)
        (ok-injective _ _ run')

  correlated-Stored :
      (e : DisasterEvent) (id : IncidentId)
      → find_correlated_incident p o s e ≡ ok (some id)
      → Stored s id
  unfolding find_correlated_incident
  correlated-Stored e id run = elim (Bool-cases (not (is_earthquake e.category))) [
    | inl h ↦ absurd (none-not-some (ok-injective _ _ (rw h at run)))
    | inr h ↦ correlated_at-Stored e (parse_event_epoch e) id (rw h at run)
  ]

  Resolved : DisasterEvent → IncidentId → Type 0
  Resolved e id = Stored s id ⊎ (id ≡ derive p (event_key e))

  or_derived-Resolved :
      (e : DisasterEvent) (found : Option IncidentId) (id : IncidentId)
      → (((k : IncidentId) → found ≡ some k → Stored s k))
      → or_derived p o e found ≡ ok id
      → Resolved e id
  unfolding or_derived Resolved
  or_derived-Resolved e none id h run = inr (sym (ok-injective _ id run))
  or_derived-Resolved e (some k) id h run =
      inl (subst (Stored s) (ok-injective k id run) (h k refl))

  aliased-Resolved :
      (e : DisasterEvent) (alias : Option IncidentId) (id : IncidentId)
      → aliased p o s e alias ≡ ok id
      → Resolved e id
  unfolding aliased Resolved
  aliased-Resolved e none id run =
      let (found, h, run') = bind-ok (find_correlated_incident p o s e) (or_derived p o e) run in
      or_derived-Resolved e found id (λ k at. correlated-Stored e k (h ∙ ap ok at)) run'
  aliased-Resolved e (some value) id run =
      let (k, h, run1) = bind-ok (or_error (parse value) Error.alias_invalid) _ run in
      let (r, h1, run2) =
        bind-ok (or_error (get s.incidents k) Error.alias_without_record) _ run1 in
      inl (subst (Stored s) (ok-injective k id run2) (r, or_error-some _ _ r h1))

  -- An event is resolved to an incident that is stored, or to the incident that the event's own
  -- key names.
  pub resolve_incident-Stored :
      (e : DisasterEvent) (id : IncidentId)
      → resolve_incident p o s e ≡ ok id
      → Stored s id ⊎ (id ≡ derive p (event_key e))
  unfolding resolve_incident Resolved
  resolve_incident-Stored e id run =
      aliased-Resolved e (get s.incident_aliases (incident_alias p (event_key e))) id run
