-- ===== src/Storage/Incidents/Records.antt =====
-- What committing a report leaves in the keyspaces of records.
use disaster_alert.Prelude.{
  ℕ, ◌+◌, ◌≡◌, refl, Bool, true, false, Option, none, some, List, [], ◌∷◌, if◌then◌else◌,
  Bool-cases, Option-cases, inl, inr, arith, ◌⊎◌,
}
use disaster_alert.Text.{Text, text_eq}
use disaster_alert.Event.{DisasterEvent}
use disaster_alert.Event.Digest.{Platform}
use disaster_alert.Incident.{IncidentId}
use disaster_alert.Incident.Record.{IncidentRecord}
use disaster_alert.Storage.{
  Store, MatchJob, Codec, Error, Result, ok, err, ◌>>=◌, ensure, or_error, encode,
}
use disaster_alert.Storage.Keyspace.{Map, get, insert, remove, nat_key, text_key, get-insert}
use disaster_alert.Event.Time.{parse_event_epoch}
use disaster_alert.Storage.Correlation.{is_earthquake, incident_reverse_prefix}
use disaster_alert.Storage.Incidents.{
  prefix_scan, remove_incident_indexes, remove_aliases, remove_correlations, merge_stored,
  add_pending, is_some, discard_incident, insert_aliases, insert_correlation, insert_job,
  index_incident, check_aliases, store_incident, commit_incident, keep_unmatched_incident,
  ledger_present,
}

-- The value that a step passes on, and how it came about.
module _ {A B : Type 0} (step : Result A) (next : A → Result B) where
  abbrev pub PassedOn : B → Type 0
  PassedOn result = (a : A) × (step ≡ ok a) × (next a ≡ ok result)

pub bind-ok :
    {A B : Type 0} (step : Result A) (next : A → Result B) {result : B}
    → step >>= next ≡ ok result
    → PassedOn step next result
bind-ok (err e) next h = cc
bind-ok (ok a) next h = (a, refl, h)

pub ensure-ok : (b : Bool) (e : Error) (u : Unit {0}) → ensure b e ≡ ok u → b ≡ true
ensure-ok true e u h = refl
ensure-ok false e u h = cc

-- What the removal of indexes leaves alone.
abbrev pub SameRecords : Store → Store → Type 0
SameRecords w w' =
    (w'.incidents ≡ w.incidents)
    × (w'.match_jobs ≡ w.match_jobs)
    × (w'.inbox ≡ w.inbox)
    × (w'.rejected_inbox ≡ w.rejected_inbox)
    × (w'.next_ids ≡ w.next_ids)
    × (w'.events ≡ w.events)

pub SameRecords-trans : (a b c : Store) → SameRecords a b → SameRecords b c → SameRecords a c
SameRecords-trans a b c h k = ground arith

module _ (s : Store) (id : IncidentId) where
  remove_aliases-SameRecords :
      (entries : List (Text × Text)) (w w' : Store)
      → remove_aliases s id entries w ≡ ok w'
      → SameRecords w w'
  unfolding remove_aliases
  remove_aliases-SameRecords [] w w' h = ground arith
  remove_aliases-SameRecords ((reverse_key, alias) ∷ entries) w w' h =
      let (current, _, h1) =
        bind-ok (or_error (get s.incident_aliases alias) Error.alias_orphaned) _ h in
      let (_, _, h2) = bind-ok (ensure (text_eq current id) Error.alias_mismatch) _ h1 in
      remove_aliases-SameRecords entries _ w' h2

  remove_correlations-SameRecords :
      (entries : List (Text × Text)) (w w' : Store)
      → remove_correlations s id entries w ≡ ok w'
      → SameRecords w w'
  unfolding remove_correlations
  remove_correlations-SameRecords [] w w' h = ground arith
  remove_correlations-SameRecords ((reverse_key, key) ∷ entries) w w' h =
      let (current, _, h1) =
        bind-ok (or_error (get s.incident_correlation key) Error.correlation_orphaned) _ h in
      let (_, _, h2) = bind-ok (ensure (text_eq current id) Error.correlation_mismatch) _ h1 in
      remove_correlations-SameRecords entries _ w' h2

  pub remove_incident_indexes-SameRecords :
      (w w' : Store) → remove_incident_indexes s id w ≡ ok w' → SameRecords w w'
  unfolding remove_incident_indexes
  remove_incident_indexes-SameRecords w w' h =
      let aliases = prefix_scan s.incident_aliases_by_incident (incident_reverse_prefix id) in
      let correlations =
        prefix_scan s.incident_correlation_by_incident (incident_reverse_prefix id) in
      let (v, h1, h2) =
        bind-ok (remove_aliases s id aliases w) (remove_correlations s id correlations) h in
      SameRecords-trans w v w' (remove_aliases-SameRecords aliases w v h1)
        (remove_correlations-SameRecords correlations v w' h2)

module _ (p : Platform) (c : Codec) where
  insert_aliases-SameRecords :
      (id : IncidentId) (keys : List Text) (w : Store)
      → SameRecords w (insert_aliases p c id keys w)
  unfolding insert_aliases
  insert_aliases-SameRecords id [] w = ground arith
  insert_aliases-SameRecords id (key ∷ keys) w = insert_aliases-SameRecords id keys _

  insert_correlation-SameRecords :
      (id : IncidentId) (e : DisasterEvent) (s w : Store)
      → SameRecords w (insert_correlation p c id e s w)
  unfolding insert_correlation
  insert_correlation-SameRecords id e s w = elim (Bool-cases (is_earthquake e.category)) [
    | inl h ↦ elim (Option-cases (parse_event_epoch e)) [
      | inl n ↦ rw (insert_correlation, h, n) (refl, refl, refl, refl, refl, refl)
      | inr (t, n) ↦ rw (insert_correlation, h, n) (refl, refl, refl, refl, refl, refl)
    ]
    | inr h ↦ rw (insert_correlation, h) (refl, refl, refl, refl, refl, refl)
  ]

unfoldable pub job_count : Option MatchJob → ℕ
job_count none = 0
job_count (some j) = 1

pub get-insert_text :
    {V : Type 0} (m : Map Text V) (key j : Text) (v : V)
    → get (insert m key v) j ≡ (if text_eq key j then some v else get m j)
get-insert_text m key j v = get-insert m key j v

pub add_pending-ok :
    (job : Option MatchJob) (r r' : IncidentRecord)
    → add_pending job r ≡ ok r'
    → (r'.id ≡ r.id) × (r'.pending_match_jobs ≡ r.pending_match_jobs + job_count job)
unfolding add_pending job_count
add_pending-ok none r r' h = ground arith
add_pending-ok (some j) r r' h = ground arith

abbrev pub jobs_after : Option MatchJob → Map ℕ MatchJob → Map ℕ MatchJob
jobs_after none m = m
jobs_after (some j) m = insert m j.id j

unkept :
    (q : IncidentRecord) (e : DisasterEvent) (stored in_ledger : Bool)
    → keep_unmatched_incident q e stored in_ledger ≡ false
    → q.pending_match_jobs ≡ 0
unfolding keep_unmatched_incident
unkept q e stored in_ledger h = ground arith

module _ (p : Platform) (c : Codec) where
  insert_job-ok :
      (job : Option MatchJob) (e : DisasterEvent) (w w' : Store)
      → insert_job p c job e w ≡ ok w'
      → (w'.incidents ≡ w.incidents)
        × (w'.match_jobs ≡ jobs_after job w.match_jobs)
        × (w'.inbox ≡ w.inbox)
        × (w'.rejected_inbox ≡ w.rejected_inbox)
        × (w'.next_ids ≡ w.next_ids)
  unfolding insert_job
  insert_job-ok none e w w' h = ground arith
  insert_job-ok (some j) e w w' h = ground arith

  index_incident-records :
      (r : IncidentRecord) (e : DisasterEvent) (inbox_id : ℕ) (s w : Store)
      → let w' = index_incident p c r e inbox_id s w in
        (w'.incidents ≡ w.incidents)
        × (w'.match_jobs ≡ w.match_jobs)
        × (w'.inbox ≡ remove w.inbox inbox_id)
        × (w'.rejected_inbox ≡ w.rejected_inbox)
        × (w'.next_ids ≡ w.next_ids)
  unfolding index_incident
  index_incident-records r e inbox_id s w =
      let w' = insert_aliases p c r.id r.source_event_keys w in
      ground (
        arith,
        insert_aliases-SameRecords p c r.id r.source_event_keys w,
        insert_correlation-SameRecords p c r.id e s w',
      )

  -- What the stored branch leaves in the keyspaces of records.
  pub store_incident-ok :
      (s : Store) (r : IncidentRecord) (e : DisasterEvent) (job : Option MatchJob) (inbox_id : ℕ)
      (s' : Store)
      → store_incident p c r e job inbox_id s ≡ ok s'
      → (s'.incidents ≡ insert s.incidents r.id r)
        × (s'.match_jobs ≡ jobs_after job s.match_jobs)
        × (s'.inbox ≡ remove s.inbox inbox_id)
        × (s'.rejected_inbox ≡ s.rejected_inbox)
        × (s'.next_ids ≡ s.next_ids)
  unfolding store_incident
  store_incident-ok s r e job inbox_id s' run =
      let (_, _, h1) = bind-ok (check_aliases p c s r.id r.source_event_keys) _ run in
      let (_, _, h2) = bind-ok (encode (c.incident r)) _ h1 in
      let (w, h3, h4) = bind-ok (insert_job p c job e _) _ h2 in
      ground (
        arith,
        insert_job-ok job e (record s { incidents = insert s.incidents r.id r }) w h3,
        index_incident-records r e inbox_id s w,
        h4,
      )

  -- The two ways to commit: the incident is stored, or thrown away with nothing pending.
  pub commit_incident-cases :
      (s : Store) (r : IncidentRecord) (e : DisasterEvent) (job : Option MatchJob) (inbox_id : ℕ)
      (s' : Store)
      → commit_incident p c r e job inbox_id s ≡ ok s'
      → (q : IncidentRecord) × (add_pending job (merge_stored (get s.incidents r.id) r) ≡ ok q)
        × ((store_incident p c q e job inbox_id s ≡ ok s')
            ⊎ ((job ≡ none)
                × (q.pending_match_jobs ≡ 0)
                × (discard_incident (get s.incidents r.id) inbox_id s ≡ ok s')))
  unfolding commit_incident
  commit_incident-cases s r e none inbox_id s' run =
      let q = merge_stored (get s.incidents r.id) r in
      let kept =
        keep_unmatched_incident q e (is_some (get s.incidents r.id)) (ledger_present s q.id) in
      (
        q,
        refl,
        elim (Bool-cases kept) [
          | inl k ↦ inl (rw k at run)
          | inr k ↦ inr (refl, unkept q e _ _ k, rw k at run)
        ],
      )
  commit_incident-cases s r e (some j) inbox_id s' run =
      let (q, h1, h2) =
        bind-ok (add_pending (some j) (merge_stored (get s.incidents r.id) r)) _ run in
      (q, h1, inl h2)

  pub discard_incident-ok :
      (stored : Option IncidentRecord) (inbox_id : ℕ) (s s' : Store)
      → discard_incident stored inbox_id s ≡ ok s'
      → (s'.incidents ≡ elim stored [ none ↦ s.incidents | some r ↦ remove s.incidents r.id ])
        × (s'.match_jobs ≡ s.match_jobs)
        × (s'.inbox ≡ remove s.inbox inbox_id)
        × (s'.rejected_inbox ≡ s.rejected_inbox)
        × (s'.next_ids ≡ s.next_ids)
  unfolding discard_incident
  discard_incident-ok none inbox_id s s' run = ground arith
  discard_incident-ok (some r) inbox_id s s' run =
      let (w, h, k) = bind-ok (remove_incident_indexes s r.id s) _ run in
      ground (arith, remove_incident_indexes-SameRecords s r.id s w h, k)

  -- A commit takes its inbox item away, and adds its job and no other.
  pub commit_incident-records :
      (s : Store) (r : IncidentRecord) (e : DisasterEvent) (job : Option MatchJob) (inbox_id : ℕ)
      (s' : Store)
      → commit_incident p c r e job inbox_id s ≡ ok s'
      → (s'.inbox ≡ remove s.inbox inbox_id)
        × (s'.match_jobs ≡ jobs_after job s.match_jobs)
        × (s'.rejected_inbox ≡ s.rejected_inbox)
        × (s'.next_ids ≡ s.next_ids)
  commit_incident-records s r e job inbox_id s' run =
      let (q, _, cases) = commit_incident-cases s r e job inbox_id s' run in
      elim cases [
        | inl kept ↦
            let (_, m, i, rejected, ids) = store_incident-ok s q e job inbox_id s' kept in
            (i, m, rejected, ids)
        | inr (no_job, _, gone) ↦
            let (_, m, i, rejected, ids) =
              discard_incident-ok (get s.incidents r.id) inbox_id s s' gone in
            (i, rw no_job m, rejected, ids)
      ]
