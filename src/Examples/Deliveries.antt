-- ===== src/Examples/Deliveries.antt =====
-- The theorems on lanes and retries at a batch of two rows.
use disaster_alert.Prelude.{◌≡◌, ◌≢◌, ◌≤◌, ◌⊎◌, refl, true, false, none, some, [], ◌∷◌, arith}
use disaster_alert.Prelude.Int.{pos}
use disaster_alert.Text.{text}
use disaster_alert.Event.{DisasterCategory}
use disaster_alert.Delivery.{DeliveryRow, DeliveryBatch, InterruptionLevel, RetryItem}
use disaster_alert.Storage.{Store, Error, ok, err, empty_store}
use disaster_alert.Storage.Keyspace.{get, nat_key, text_key, pair_key}
use disaster_alert.Storage.Lanes.{
  LaneOutcome, commit_delivery_lane_outcome, contains_row, progress_of, retry_key,
}
use disaster_alert.Storage.Lanes.Rows.{times}
use disaster_alert.Storage.Lanes.Progress.{outcome_rows, commit_delivery_lane_outcome-outcomes}
use disaster_alert.Storage.Lanes.Pending.{
  IsProgress, remaining, commit_delivery_lane_outcome-pending, commit_delivery_lane_outcome-refused,
}
use disaster_alert.Storage.Retries.{
  pending_delivery_rows, complete_retry, complete_retry_with_success, complete_retry_in_batch,
}
use disaster_alert.Storage.Retries.Served.{RetriesServed}
use disaster_alert.Storage.Retries.Lane.{NewIds}
use disaster_alert.Storage.Retries.Scheduled.{IsScheduled}
use disaster_alert.Storage.Retries.Steps.{
  RetryRun, no_step, more_step, lane, completed, RetryRun-IsScheduled,
  complete_retry_with_success_completes,
}
use disaster_alert.Examples.{small, stored}

abbrev pub first_row : DeliveryRow
first_row = record {
  destination_id = 9;
  subscription_id = 7;
  generation = 1;
  target_ordinal = 0;
  match_kind = 1;
  interruption_level = InterruptionLevel.active;
  distance_m = 1000;
  intensity_cent = 0;
}

abbrev pub second_row : DeliveryRow
second_row = record first_row { subscription_id = 8 }

abbrev pub batch : DeliveryBatch
batch = record {
  id = 1;
  incident_id = text "incident_1";
  event_revision = 1;
  category = DisasterCategory.earthquake_report;
  shard = 0;
  created_at_ms = pos 1000;
  rows = first_row ∷ second_row ∷ [];
}

abbrev pub delivering : Store
delivering = record empty_store {
  delivery_batches = ((0, 1), batch) ∷ [];
  delivery_by_destination = (((9, 1), 0), tt) ∷ (((9, 1), 1), tt) ∷ [];
}

abbrev second_retry : RetryItem
second_retry = record {
  id = 5;
  batch_id = 1;
  row_index = 1;
  destination_id = 9;
  due_at_ms = pos 9000;
  attempts = 1;
  created_at_ms = pos 2000;
  last_error = text "timeout";
}

-- The first row is delivered and the second is not looked at.
abbrev first_lane : LaneOutcome
first_lane = record {
  completed_rows = 0 ∷ [];
  skipped_rows = [];
  successes = (record { row_index = 0; row = first_row }) ∷ [];
  retries = [];
  dead_letters = [];
}

-- The first row is delivered and the second is to be tried again.
abbrev both_lane : LaneOutcome
both_lane = record first_lane { completed_rows = 0 ∷ 1 ∷ []; retries = second_retry ∷ [] }

abbrev after_first : Store
after_first = stored (commit_delivery_lane_outcome small (pos 2000) 1 first_lane delivering)

abbrev after_both : Store
after_both = stored (commit_delivery_lane_outcome small (pos 2000) 1 both_lane delivering)

committed-first :
    commit_delivery_lane_outcome small (pos 2000) 1 first_lane delivering ≡ ok after_first
unfolding commit_delivery_lane_outcome
committed-first = refl

committed-both :
    commit_delivery_lane_outcome small (pos 2000) 1 both_lane delivering ≡ ok after_both
unfolding commit_delivery_lane_outcome
committed-both = refl

commit_delivery_lane_outcome-outcomes_example :
    (times 1 both_lane.completed_rows ≤ 1)
    × (times 1 (outcome_rows small (pos 2000) 1 both_lane) ≡ times 1 both_lane.completed_rows)
    × (contains_row both_lane.completed_rows 1 ≡ true
        → contains_row (progress_of delivering 1) 1 ≡ false)
commit_delivery_lane_outcome-outcomes_example =
    commit_delivery_lane_outcome-outcomes small (pos 2000) 1 both_lane delivering after_both 1
      committed-both

pub delivering-IsProgress : IsProgress delivering 1
unfolding IsProgress progress_of get
delivering-IsProgress b h i = (omega arith, λ k. absurd (omega arith))

pub delivering-pending :
    pending_delivery_rows delivering 1 ≡ ok ((0, first_row) ∷ (1, second_row) ∷ [])
unfolding pending_delivery_rows
delivering-pending = refl

commit_delivery_lane_outcome-pending_example :
    (pending_delivery_rows after_first 1
      ≡ ok (remaining first_lane ((0, first_row) ∷ (1, second_row) ∷ [])))
    ⊎ ((pending_delivery_rows after_first 1 ≡ err Error.batch_missing)
        × (remaining first_lane ((0, first_row) ∷ (1, second_row) ∷ []) ≡ []))
commit_delivery_lane_outcome-pending_example =
    commit_delivery_lane_outcome-pending small (pos 2000) 1 first_lane delivering after_first
      ((0, first_row) ∷ (1, second_row) ∷ []) delivering-IsProgress delivering-pending
      committed-first

first_row_completed : contains_row first_lane.completed_rows 0 ≡ true
unfolding contains_row
first_row_completed = refl

first_row_again : contains_row both_lane.completed_rows 0 ≡ true
unfolding contains_row
first_row_again = refl

commit_delivery_lane_outcome-refused_example :
    commit_delivery_lane_outcome small (pos 3000) 1 both_lane after_first ≢ ok after_both
commit_delivery_lane_outcome-refused_example =
    commit_delivery_lane_outcome-refused small (pos 2000) 1 first_lane both_lane (pos 3000) 0
      delivering after_first after_both committed-first first_row_completed first_row_again

delivering-IsScheduled : IsScheduled delivering
unfolding get RetriesServed
delivering-IsScheduled = record {
  indexed = record {
    keyed = λ key r h. ground arith;
    one_id = λ key other r q h g e. ground arith;
    to_batch = λ key r h. ground arith;
    to_destination = λ key r h. ground arith;
    from_batch = λ entry key h. absurd (ground arith);
    from_destination = λ entry key h. absurd (ground arith);
  };
  served = λ key r h. absurd (ground arith);
}

second_retry-new : NewIds delivering both_lane.retries
unfolding NewIds get
second_retry-new = (λ key r h. absurd (ground arith), tt, tt)

after_completion : Store
unfolding complete_retry
after_completion = stored (complete_retry second_retry after_both)

completed-second : complete_retry second_retry after_both ≡ ok after_completion
unfolding complete_retry commit_delivery_lane_outcome after_completion
completed-second = refl

delivering-run : RetryRun small delivering after_completion
delivering-run =
    more_step (more_step no_step (lane (pos 2000) 1 both_lane second_retry-new committed-both))
      (completed second_retry completed-second)

RetryRun-IsScheduled_example : IsScheduled after_completion
RetryRun-IsScheduled_example = RetryRun-IsScheduled small delivering-run delivering-IsScheduled

after_both-IsScheduled : IsScheduled after_both
after_both-IsScheduled =
    RetryRun-IsScheduled small
      (more_step no_step (lane (pos 2000) 1 both_lane second_retry-new committed-both))
      delivering-IsScheduled

second_retry-stored : get after_both.retries (retry_key second_retry) ≡ some second_retry
unfolding get retry_key commit_delivery_lane_outcome
second_retry-stored = refl

complete_retry_with_success_completes_example :
    (complete_retry_with_success small (pos 3000) second_retry none after_both
      ≡ ok (complete_retry_in_batch after_both second_retry after_both))
    × (get
          (complete_retry_in_batch after_both second_retry after_both).retries
          (retry_key second_retry)
        ≡ none)
complete_retry_with_success_completes_example =
    complete_retry_with_success_completes small (pos 3000) second_retry after_both
      after_both-IsScheduled second_retry-stored
