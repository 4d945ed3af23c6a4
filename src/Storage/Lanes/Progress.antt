-- ===== src/Storage/Lanes/Progress.antt =====
-- The progress of a batch over the commits of its lanes.
use disaster_alert.Prelude.{
  ℕ, zero, suc, ◌+◌, ◌≤◌, ◌<◌, ◌≡◌, refl, true, false, not, ◌||◌, List, [], ◌∷◌, ◌++◌, ◌==◌, ==_iff,
  ltb, if◌then◌else◌, length, map, Bool-cases, inl, inr, arith, Option, none, some, get_elem?, ◌∙◌,
}
use disaster_alert.Prelude.Int.{ℤ}
use disaster_alert.Delivery.{DeliveryBatch}
use disaster_alert.Storage.{
  Store, Codec, Error, ok, ensure, or_error, delivery_batch_key, delivery_destination_key,
}
use disaster_alert.Storage.Keyspace.{get, remove, nat_key, pair_key}
use disaster_alert.Storage.Incidents.Records.{bind-ok, ensure-ok}
use disaster_alert.Storage.Lanes.{
  contains_row, row_set, same_rows, Written, skip_rows, commit_successes, commit_dead_letters,
  commit_retries, LaneOutcome, retry_rows, commit_outcome, commit_delivery_lane_outcome,
  commit_rows, check_lane, progress_of, finish_batch, has_retries,
}
use disaster_alert.Storage.Lanes.Rows.{
  times, times-append, contains_row-times, times-le-one, same_rows-contains, contains_row-row_set,
}
use disaster_alert.Storage.Lanes.Outcome.{
  Claims, SameRetries, skip_rows_lem, commit_successes_lem, commit_dead_letters_lem,
  commit_retries_lem,
}

pub or_error-ok :
    {A : Type 0} (found : Option A) (e : Error) (a : A) → or_error found e ≡ ok a → found ≡ some a
or_error-ok none e a h = cc
or_error-ok (some b) e a h = ground (arith, h)

get_elem?-lt : {A : Type 0} (xs : List A) (i : ℕ) (x : A) → get_elem? xs i ≡ some x → i < length xs
get_elem?-lt [] i x h = cc
get_elem?-lt (y ∷ xs) zero x h = omega arith
get_elem?-lt (y ∷ xs) (suc i) x h = omega (arith, get_elem?-lt xs i x h)

check_lane-lt :
    (b : DeliveryBatch) (destination : Option ℕ) (rows : List ℕ) {u : Unit {0}}
    → check_lane b destination rows ≡ ok u
    → (i : ℕ) → 1 ≤ times i rows
    → i < length b.rows
unfolding check_lane
check_lane-lt b destination [] run i h = absurd (omega arith)
check_lane-lt b none (index ∷ rows) run i h =
    let (row, found, run1) = bind-ok (or_error (get_elem? b.rows index) Error.row_invalid) _ run in
    ground (
      arith,
      get_elem?-lt b.rows index row (or_error-ok _ _ _ found),
      check_lane-lt b (some row.destination_id) rows run1 i,
    )
check_lane-lt b (some destination) (index ∷ rows) run i h =
    let (row, found, run1) = bind-ok (or_error (get_elem? b.rows index) Error.row_invalid) _ run in
    let (_, _, run2) =
      bind-ok (ensure (destination == row.destination_id) Error.mixed_destinations) _ run1 in
    ground (
      arith,
      get_elem?-lt b.rows index row (or_error-ok _ _ _ found),
      check_lane-lt b (some row.destination_id) rows run2 i,
    )

-- What the step that writes the progress leaves alone.
abbrev pub SameBatches : Store → Store → Type 0
SameBatches w w' =
    (w'.delivery_batches ≡ w.delivery_batches)
    × (w'.delivery_progress ≡ w.delivery_progress)
    × SameRetries w w'

pub commit_rows_lem :
    (id : ℕ) (b : DeliveryBatch) (retried rows progress : List ℕ) (w : Store)
    (after : List ℕ × Store)
    → commit_rows id b retried rows progress w ≡ ok after
    → ((i : ℕ)
        → (times i after.0 ≡ times i rows + times i progress)
          × (1 ≤ times i rows → times i progress ≡ 0))
      × SameBatches w after.1
unfolding commit_rows
commit_rows_lem id b retried [] progress w after run =
    let e : after ≡ (progress, w) = ground (arith, run) in
    rw e (λ i. (omega arith, λ h. absurd (omega arith)), (refl, refl, (refl, refl, refl)))
commit_rows_lem id b retried (index ∷ rows) progress w after run =
    let (row, _, run1) = bind-ok (or_error (get_elem? b.rows index) Error.row_invalid) _ run in
    let (_, h, run2) =
      bind-ok (ensure (not (contains_row progress index)) Error.row_repeated) _ run1 in
    let w1 : Store = if contains_row retried index then w else record w {
      delivery_by_destination =
          remove w.delivery_by_destination (delivery_destination_key row.destination_id id index);
    } in
    let (counts, same) = commit_rows_lem id b retried rows (index ∷ progress) w1 after run2 in
    (
      λ i. (
        ground (arith, counts i),
        λ k. ground (arith, counts i, ensure-ok _ _ _ h, contains_row-times progress index),
      ),
      ground (arith, same),
    )

module _ (c : Codec) (now_ms : ℤ) (id : ℕ) (o : LaneOutcome) where
  -- Every row that the outcome names, under whatever heading.
  pub outcome_rows : List ℕ
  outcome_rows =
      o.skipped_rows
      ++ (map (λ success. success.row_index) o.successes
          ++ (map (λ dead_letter. dead_letter.row_index) o.dead_letters ++ retry_rows o))

  -- What a commit that succeeds has found and done.
  pub record Committed (s s' : Store) : Type 0 where
    pub batch : DeliveryBatch
    pub stored : get s.delivery_batches (delivery_batch_key 0 id) ≡ some batch
    pub same_id : batch.id ≡ id
    pub completed_once : (i : ℕ) → times i o.completed_rows ≤ 1
    pub in_batch : (i : ℕ) → 1 ≤ times i o.completed_rows → i < length batch.rows
    pub one_outcome : (i : ℕ) → times i outcome_rows ≡ times i o.completed_rows
    pub first_time : (i : ℕ) → 1 ≤ times i o.completed_rows → times i (progress_of s id) ≡ 0
    pub progress : List ℕ
    pub added : (i : ℕ) → times i progress ≡ times i o.completed_rows + times i (progress_of s id)
    pub written : Store
    pub batches_kept : written.delivery_batches ≡ s.delivery_batches
    pub progress_kept : written.delivery_progress ≡ s.delivery_progress
    pub base : Written
    pub base_kept : SameRetries s base.1
    pub retried : Written
    pub retries_run : commit_retries c now_ms batch o.completed_rows id o.retries base ≡ ok retried
    pub retried_kept : SameRetries retried.1 written
    pub finished :
        s' ≡ finish_batch id batch (ltb 0 (length o.retries) || has_retries s id) progress written

  one_outcome_lem :
      (terminal : List ℕ) (i : ℕ)
      → times i terminal ≤ 1
      → times i o.completed_rows ≤ 1
      → same_rows terminal (row_set o.completed_rows) ≡ true
      → times i terminal ≡ times i o.completed_rows
  one_outcome_lem terminal i once completed_once same =
      let (into, from) = same_rows-contains terminal (row_set o.completed_rows) i same in
      let e = contains_row-row_set o.completed_rows i in
      let t = contains_row-times terminal i in
      let u = contains_row-times o.completed_rows i in
      elim (Bool-cases (contains_row terminal i)) [
        | inl here ↦ ground (arith, into here)
        | inr missing ↦ elim (Bool-cases (contains_row o.completed_rows i)) [
          | inl there ↦ ground (arith, from (e ∙ there))
          | inr absent ↦ ground arith
        ]
      ]

  outcome_rows-times :
      (i : ℕ)
      → times i outcome_rows
        ≡ times i o.skipped_rows
          + (times i (map (λ success. success.row_index) o.successes)
              + (times i (map (λ dead_letter. dead_letter.row_index) o.dead_letters)
                  + times i (retry_rows o)))
  unfolding outcome_rows
  outcome_rows-times i = simp times-append

  commit_outcome-Committed :
      (b : DeliveryBatch) (s s' : Store)
      → get s.delivery_batches (delivery_batch_key 0 id) ≡ some b
      → b.id ≡ id
      → ((i : ℕ) → times i o.completed_rows ≤ 1)
      → ((i : ℕ) → 1 ≤ times i o.completed_rows → i < length b.rows)
      → commit_outcome c now_ms id o b s ≡ ok s'
      → Committed s s'
  unfolding commit_outcome outcome_rows Claims retry_rows
  commit_outcome-Committed b s s' stored same_id once inside run =
      let rows = o.completed_rows in
      let (skipped, e0, run1) = bind-ok (skip_rows rows o.skipped_rows ([], s)) _ run in
      let (succeeded, e1, run2) =
        bind-ok (commit_successes c now_ms b rows o.successes skipped) _ run1 in
      let (dead, e2, run3) =
        bind-ok (commit_dead_letters c now_ms b rows id o.dead_letters succeeded) _ run2 in
      let (retried, e3, run4) = bind-ok (commit_retries c now_ms b rows id o.retries dead) _ run3 in
      let (_, h, run5) =
        bind-ok (ensure (same_rows retried.0 (row_set rows)) Error.outcome_missing) _ run4 in
      let (after, e4, run6) =
        bind-ok (commit_rows id b (retry_rows o) rows (progress_of s id) retried.1) _ run5 in
      let (claims0, same0) = skip_rows_lem rows o.skipped_rows [] s skipped e0 in
      let (claims1, lanes1, retries1) =
        commit_successes_lem c now_ms b rows o.successes skipped.0 skipped.1 succeeded e1 in
      let (claims2, lanes2, retries2) =
        commit_dead_letters_lem c now_ms b rows id o.dead_letters succeeded.0 succeeded.1 dead e2 in
      let (claims3, lanes3) =
        commit_retries_lem c now_ms b rows id o.retries dead.0 dead.1 retried e3 in
      let (counts, same4) =
        commit_rows_lem id b (retry_rows o) rows (progress_of s id) retried.1 after e4 in
      let below : (i : ℕ) → times i retried.0 ≤ 1 =
        λ i. (claims3 i).1 ((claims2 i).1 ((claims1 i).1 ((claims0 i).1 (omega arith)))) in
      record {
        batch = b;
        stored = stored;
        same_id = same_id;
        completed_once = once;
        in_batch = inside;
        one_outcome = λ i. omega (
          arith,
          one_outcome_lem retried.0 i (below i) (once i) (ensure-ok _ _ _ h),
          outcome_rows-times i,
          (claims0 i).0,
          (claims1 i).0,
          (claims2 i).0,
          (claims3 i).0,
        );
        first_time = λ i. (counts i).1;
        progress = after.0;
        added = λ i. (counts i).0;
        written = after.1;
        batches_kept = ground (arith, same0, lanes1, lanes2, lanes3, same4);
        progress_kept = ground (arith, same0, lanes1, lanes2, lanes3, same4);
        base = dead;
        base_kept = ground (arith, same0, retries1, retries2);
        retried = retried;
        retries_run = e3;
        retried_kept = same4.2;
        finished = ground (arith, run6);
      }

  pub commit_delivery_lane_outcome-Committed :
      (s s' : Store) → commit_delivery_lane_outcome c now_ms id o s ≡ ok s' → Committed s s'
  unfolding commit_delivery_lane_outcome
  commit_delivery_lane_outcome-Committed s s' run =
      let rows = o.completed_rows in
      let (b, stored, run1) =
        bind-ok (or_error (get s.delivery_batches (delivery_batch_key 0 id)) Error.batch_missing) _
          run in
      let (_, same, run2) = bind-ok (ensure (b.id == id) Error.batch_mismatch) _ run1 in
      let (_, once, run3) =
        bind-ok (ensure (length (row_set rows) == length rows) Error.repeated_completed) _ run2 in
      let (_, lane, run4) = bind-ok (check_lane b none rows) _ run3 in
      let (_, _, run5) =
        bind-ok (ensure (length (row_set (retry_rows o)) == length o.retries) Error.repeated_retry)
          _ run4 in
      commit_outcome-Committed b s s' (or_error-ok _ _ _ stored)
        ((==_iff _ _).0 (ensure-ok _ _ _ same))
        (λ i. times-le-one rows i ((==_iff _ _).0 (ensure-ok _ _ _ once)))
        (check_lane-lt b none rows lane) run5

  -- A commit that succeeds names each completed row once, gives it exactly one outcome and no other
  -- row any, and no completed row was done before.
  pub commit_delivery_lane_outcome-outcomes :
      (s s' : Store) (i : ℕ)
      → commit_delivery_lane_outcome c now_ms id o s ≡ ok s'
      → (times i o.completed_rows ≤ 1)
        × (times i outcome_rows ≡ times i o.completed_rows)
        × (contains_row o.completed_rows i ≡ true → contains_row (progress_of s id) i ≡ false)
  commit_delivery_lane_outcome-outcomes s s' i run =
      let done = commit_delivery_lane_outcome-Committed s s' run in
      (
        done.completed_once i,
        done.one_outcome i,
        λ h. ground (
          arith,
          done.first_time i,
          contains_row-times o.completed_rows i,
          contains_row-times (progress_of s id) i,
        ),
      )
