-- ===== src/Storage/Retries/Steps.antt =====
-- The operations on retries as steps of the store, and what every run of them keeps.
use mathlib.Core.Path.{subst}
use disaster_alert.Prelude.{
  ℕ, ◌≡◌, refl, ◌&&◌, Option, none, some, Option-cases, inl, inr, arith, ap, ◌∙◌, ◌==◌, ==_iff,
  get_elem?,
}
use disaster_alert.Prelude.Int.{ℤ}
use disaster_alert.Delivery.{
  DeliveryBatch, DeliveryRow, RetryItem, DeliverySuccess, DeadLetterItem, row_eq, retry_eq_iff,
}
use disaster_alert.Storage.{Store, Codec, Error, ok, ◌>>◌, ensure, or_error, encode}
use disaster_alert.Storage.Keyspace.{get, nat_key, pair_key, get-remove_self}
use disaster_alert.Storage.Incidents.Records.{bind-ok}
use disaster_alert.Storage.Lanes.{retry_key, LaneOutcome, commit_delivery_lane_outcome}
use disaster_alert.Storage.Lanes.Outcome.{SameRetries, insert_ledger-Same}
use disaster_alert.Storage.Lanes.Progress.{commit_delivery_lane_outcome-Committed}
use disaster_alert.Storage.Retries.{
  delivery_batch, reschedule_retry, ensure_retry_current, complete_retry_in_batch, complete_retry,
  complete_retry_with_success, record_success, dead_letter_retry,
}
use disaster_alert.Storage.Retries.Indexed.{
  SameRetries-Indexed, ok-inj, reschedule_retry-Indexed, ensure_retry_current-get,
  complete_retry_in_batch-Indexed,
}
use disaster_alert.Storage.Retries.Served.{
  Served, RetriesServed, reschedule_retry-Served, complete_retry_in_batch-Served,
  complete_retry_in_batch-kept,
}
use disaster_alert.Storage.Retries.Lane.{NewIds}
use disaster_alert.Storage.Retries.Scheduled.{IsScheduled, committed-IsScheduled}

pub data RetryStep (c : Codec) : Store → Store → Type 0 where
  lane :
      {s s' : Store} (now_ms : ℤ) (id : ℕ) (o : LaneOutcome)
      → NewIds s o.retries
      → commit_delivery_lane_outcome c now_ms id o s ≡ ok s'
      → RetryStep c s s'
  rescheduled :
      {s s' : Store} (previous next : RetryItem)
      → reschedule_retry c previous next s ≡ ok s'
      → RetryStep c s s'
  completed : {s s' : Store} (retry : RetryItem) → complete_retry retry s ≡ ok s' → RetryStep c s s'
  succeeded :
      {s s' : Store} (now_ms : ℤ) (retry : RetryItem) (success : Option DeliverySuccess)
      → complete_retry_with_success c now_ms retry success s ≡ ok s'
      → RetryStep c s s'
  dead_lettered :
      {s s' : Store} (retry : RetryItem) (dead_letter : DeadLetterItem)
      → dead_letter_retry c retry dead_letter s ≡ ok s'
      → RetryStep c s s'

pub data RetryRun (c : Codec) (s : Store) : Store → Type 0 where
  no_step : RetryRun c s s
  more_step : {t u : Store} → RetryRun c s t → RetryStep c t u → RetryRun c s u

batch-IsScheduled :
    (s : Store) (retry : RetryItem) (w : Store)
    → IsScheduled s
    → get s.retries (retry_key retry) ≡ some retry
    → SameRetries s w
    → w.delivery_batches ≡ s.delivery_batches
    → IsScheduled (complete_retry_in_batch s retry w)
batch-IsScheduled s retry w sched there same batches = record {
  indexed =
      complete_retry_in_batch-Indexed s retry w (SameRetries-Indexed s w same sched.indexed)
        (ap (λ m. get m (retry_key retry)) same.0 ∙ there);
  served = complete_retry_in_batch-Served s retry w sched.indexed sched.served there same.0 batches;
}

module _ (c : Codec) (s s' : Store) (sched : IsScheduled s) where
  reschedule-IsScheduled :
      (previous next : RetryItem) → reschedule_retry c previous next s ≡ ok s' → IsScheduled s'
  reschedule-IsScheduled previous next run = record {
    indexed = reschedule_retry-Indexed c previous next s s' sched.indexed run;
    served = reschedule_retry-Served c previous next s s' sched.served run;
  }

  complete-IsScheduled : (retry : RetryItem) → complete_retry retry s ≡ ok s' → IsScheduled s'
  unfolding complete_retry
  complete-IsScheduled retry run = elim (Option-cases (get s.retries (retry_key retry))) [
    | inl gone ↦ let e : s ≡ s' = ground (arith, gone, run) in subst IsScheduled e sched
    | inr (stored, found) ↦
        let run' : ensure_retry_current s retry >> ok (complete_retry_in_batch s retry s) ≡ ok s' =
          ground (arith, found, run) in
        let (_, current, run1) = bind-ok (ensure_retry_current s retry) _ run' in
        subst IsScheduled (ok-inj run1) (
          batch-IsScheduled s retry s sched (ensure_retry_current-get s retry current)
            (refl, refl, refl) refl)
  ]

  dead_letter-IsScheduled :
      (retry : RetryItem) (dead_letter : DeadLetterItem)
      → dead_letter_retry c retry dead_letter s ≡ ok s'
      → IsScheduled s'
  unfolding dead_letter_retry
  dead_letter-IsScheduled retry dead_letter run =
      let (_, current, run1) = bind-ok (ensure_retry_current s retry) _ run in
      let (_, _, run2) =
        bind-ok
          (ensure
            (dead_letter.batch_id == retry.batch_id
              && dead_letter.row_index == retry.row_index
              && dead_letter.destination_id == retry.destination_id)
            Error.dead_letter_mismatch)
          _ run1 in
      let (_, _, run3) = bind-ok (encode (c.dead_letter dead_letter)) _ run2 in
      subst IsScheduled (ok-inj run3) (
        batch-IsScheduled s retry _ sched (ensure_retry_current-get s retry current)
          (refl, refl, refl) refl)

  record_success-Same :
      (now_ms : ℤ) (b : DeliveryBatch) (row : DeliveryRow) (retry : RetryItem)
      (success : Option DeliverySuccess) (w : Store)
      → record_success c now_ms b row retry success s ≡ ok w
      → SameRetries s w × (w.delivery_batches ≡ s.delivery_batches)
  unfolding record_success
  record_success-Same now_ms b row retry none w run = ground (arith, run)
  record_success-Same now_ms b row retry (some success) w run =
      let (_, _, run1) =
        bind-ok
          (ensure (success.row_index == retry.row_index && row_eq success.row row)
            Error.success_mismatch)
          _ run in
      let (lanes, retries) = insert_ledger-Same c now_ms b success s w run1 in (retries, lanes.0)

  succeed-IsScheduled :
      (now_ms : ℤ) (retry : RetryItem) (success : Option DeliverySuccess)
      → complete_retry_with_success c now_ms retry success s ≡ ok s'
      → IsScheduled s'
  unfolding complete_retry_with_success
  succeed-IsScheduled now_ms retry success run =
      let (_, current, run1) = bind-ok (ensure_retry_current s retry) _ run in
      let (b, _, run2) =
        bind-ok (or_error (delivery_batch s retry.batch_id) Error.batch_missing) _ run1 in
      let (row, _, run3) =
        bind-ok (or_error (get_elem? b.rows retry.row_index) Error.row_invalid) _ run2 in
      let (_, _, run4) =
        bind-ok (ensure (row.destination_id == retry.destination_id) Error.mixed_destinations) _
          run3 in
      let (w, written, run5) = bind-ok (record_success c now_ms b row retry success s) _ run4 in
      let (retries, batches) = record_success-Same now_ms b row retry success w written in
      subst IsScheduled (ok-inj run5) (
        batch-IsScheduled s retry w sched (ensure_retry_current-get s retry current) retries
          batches)

RetryStep-IsScheduled :
    (c : Codec) {s s' : Store} → RetryStep c s s' → IsScheduled s → IsScheduled s'
RetryStep-IsScheduled c {s} {s'} (lane now_ms id o new run) sched =
    committed-IsScheduled c now_ms id o s s' sched new
      (commit_delivery_lane_outcome-Committed c now_ms id o s s' run)
RetryStep-IsScheduled c {s} {s'} (rescheduled previous next run) sched =
    reschedule-IsScheduled c s s' sched previous next run
RetryStep-IsScheduled c {s} {s'} (completed retry run) sched =
    complete-IsScheduled c s s' sched retry run
RetryStep-IsScheduled c {s} {s'} (succeeded now_ms retry success run) sched =
    succeed-IsScheduled c s s' sched now_ms retry success run
RetryStep-IsScheduled c {s} {s'} (dead_lettered retry dead_letter run) sched =
    dead_letter-IsScheduled c s s' sched retry dead_letter run

-- Over any run of commits of lanes, reschedulings, completions and dead letters, where the retries of
-- each lane have new ids: both indexes have exactly the stored retries, each retry stands under its
-- own key, no two have one id, and the batch of each retry is stored and has its row.
pub RetryRun-IsScheduled :
    (c : Codec) {s s' : Store} → RetryRun c s s' → IsScheduled s → IsScheduled s'
RetryRun-IsScheduled c no_step sched = sched
RetryRun-IsScheduled c (more_step run step) sched =
    RetryStep-IsScheduled c step (RetryRun-IsScheduled c run sched)

-- Where the retries are scheduled and the given one is stored, its completion without a ledger entry
-- succeeds, and the retry is gone.
pub complete_retry_with_success_completes :
    (c : Codec) (now_ms : ℤ) (retry : RetryItem) (s : Store)
    → IsScheduled s
    → get s.retries (retry_key retry) ≡ some retry
    → (complete_retry_with_success c now_ms retry none s ≡ ok (complete_retry_in_batch s retry s))
      × (get (complete_retry_in_batch s retry s).retries (retry_key retry) ≡ none)
unfolding complete_retry_with_success ensure_retry_current record_success Served RetriesServed
complete_retry_with_success_completes c now_ms retry s sched there =
    let (b, row, found, place, same) = sched.served (retry_key retry) retry there in
    (
      rw
          (
            there,
            (retry_eq_iff retry retry).1 refl,
            found,
            place,
            (==_iff row.destination_id retry.destination_id).1 same,
          )
          refl,
      ap (λ m. get m (retry_key retry)) (complete_retry_in_batch-kept s retry s refl)
          ∙ get-remove_self s.retries (retry_key retry),
    )
