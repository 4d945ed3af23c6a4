-- ===== src/Examples/Lanes.antt =====
-- The theorems on the tasks of a lane, at the two rows of `Examples.Deliveries`.
use disaster_alert.Prelude.{
  ◌≡◌, ◌⊎◌, refl, List, true, false, some, [], ◌∷◌, ◌++◌, ℕ, arith, if◌then◌else◌, ◌==◌, All,
}
use disaster_alert.Prelude.Int.{pos}
use disaster_alert.Text.{text}
use disaster_alert.Delivery.{DeliveryRow, DeliverySuccess}
use disaster_alert.Storage.{Store, Error, Result, ok, err, empty_store, delivery_batch_key}
use disaster_alert.Storage.Keyspace.{Map, get, nat_key, pair_key}
use disaster_alert.Storage.Lanes.{LaneOutcome}
use disaster_alert.Storage.Lanes.Pending.{remaining}
use disaster_alert.Storage.Retries.{pending_delivery_rows, delivery_is_destination_head}
use disaster_alert.Runtime.Lane.{
  Sender, Sent, transient, is_permanent, StoredSubscription, no_outcome, process_destination_lane,
  lane_of,
}
use disaster_alert.Runtime.Lane.Totals.{IsRoomy}
use disaster_alert.Runtime.Lane.Acceptance.{retried_rows}
use disaster_alert.Runtime.Lane.Attempts.{HasIds, numbers_of}
use disaster_alert.Runtime.Lane.Completion.{process_destination_lane_completes}
use disaster_alert.Runtime.Lane.Order.{process_destination_lane-InOrder}
use disaster_alert.Examples.{small, first_report}
use disaster_alert.Examples.Confirmations.{subscriber}
use disaster_alert.Runtime.Lane.Recipient.{Delivered, process_destination_lane-Delivered}
use disaster_alert.Examples.Deliveries.{
  first_row, second_row, batch, delivering, delivering-IsProgress, delivering-pending,
}

-- The first row is sent, and the second times out.
abbrev second_fails : Sender
second_fails event b row subscription target rule =
    if row.subscription_id == 7 then Sent.sent else Sent.not_sent (transient (text "timeout"))

abbrev subscribed : Map ℕ StoredSubscription
subscribed =
    (
      7,
      record {
        id = 7;
        destination_id = 9;
        generation = 1;
        active = true;
        subscription = subscriber;
      },
    )
    ∷ (
      8,
      record {
        id = 8;
        destination_id = 9;
        generation = 1;
        active = true;
        subscription = subscriber;
      },
    )
    ∷ []

abbrev both_rows : List (ℕ × DeliveryRow)
both_rows = (0, first_row) ∷ (1, second_row) ∷ []

small-IsRoomy : IsRoomy small
small-IsRoomy = record {
  delivery_fits = λ x. omega arith;
  retry_fits = λ x short. omega arith;
  dead_letter_fits = λ x short. omega arith;
}

delivering-stored : get delivering.delivery_batches (0, 1) ≡ some batch
unfolding get
delivering-stored = refl

delivering-HasIds : HasIds 2 delivering.next_ids
unfolding HasIds get
delivering-HasIds = (omega arith, omega arith)

process_destination_lane_completes_example :
    (o : LaneOutcome) × (s' : Store) × (process_destination_lane second_fails subscribed
        (pos 2000)
        first_report
        batch
        small
        (lane_of 9 both_rows)
        delivering
      ≡ ok (o, s'))
    × (o.completed_rows ≡ numbers_of (lane_of 9 both_rows))
    × ((pending_delivery_rows s' 1 ≡ ok (remaining o both_rows))
        ⊎ ((pending_delivery_rows s' 1 ≡ err Error.batch_missing) × (remaining o both_rows ≡ [])))
unfolding lane_of delivery_batch_key
process_destination_lane_completes_example =
    process_destination_lane_completes second_fails subscribed (pos 2000) first_report batch small
      small-IsRoomy 9 delivering delivering-stored both_rows delivering-IsProgress
      delivering-pending delivering-HasIds

abbrev found_of : Result (LaneOutcome × Store) → LaneOutcome × Store
found_of (ok found) = found
found_of (err e) = (no_outcome, empty_store)

abbrev attempted : LaneOutcome × Store
attempted = found_of (
    process_destination_lane second_fails subscribed (pos 2000) first_report batch small both_rows
      delivering)

lane_attempted :
    process_destination_lane second_fails subscribed
      (pos 2000)
      first_report
      batch
      small
      both_rows
      delivering
    ≡ ok attempted
unfolding process_destination_lane is_permanent
lane_attempted = refl

process_destination_lane-InOrder_example :
    (front : List ℕ) × (attempted.0.completed_rows ≡ front ++ retried_rows attempted.0)
    × (delivery_is_destination_head delivering 9 1 0 ≡ false → front ≡ [])
process_destination_lane-InOrder_example =
    process_destination_lane-InOrder second_fails subscribed (pos 2000) first_report batch small 0
      first_row ((1, second_row) ∷ []) delivering attempted lane_attempted

-- The first row is delivered and the second is put off.
front_test : (attempted.0.skipped_rows ≡ []) × (retried_rows attempted.0 ≡ 1 ∷ [])
unfolding process_destination_lane is_permanent
front_test = (refl, refl)

process_destination_lane-Delivered_example :
    All
      (λ (success : DeliverySuccess).
        Delivered second_fails subscribed (pos 2000) first_report batch delivering success.row)
      attempted.0.successes
process_destination_lane-Delivered_example =
    process_destination_lane-Delivered second_fails subscribed (pos 2000) first_report batch small
      both_rows delivering attempted lane_attempted

-- There is a delivery to which this applies.
delivered_test : attempted.0.successes ≡ record { row_index = 0; row = first_row } ∷ []
unfolding process_destination_lane is_permanent
delivered_test = refl
