-- ===== src/Runtime/Lane.antt =====
-- src/runtime/pipeline.rs: `process_destination_lane`, which tries the pending rows of one destination
-- in order and commits what became of them.
--
-- `Sender` says what comes of a notification: its timing, its link and the request to the server of the
-- destination, all behind one answer. The stored subscriptions are read as they stand before the lane.
-- The clock is read once for a lane, where the source reads it for each row. A lane is one step: the
-- lock of the destination keeps other deliveries to it away, but the lanes of other destinations, which
-- the source lets come between, are not modelled.
pub mod Totals
pub mod Acceptance
pub mod Attempts
pub mod Completion
pub mod Recipient
pub mod Order
use disaster_alert.Prelude.{
  ℕ, ◌+◌, ◌*◌, ◌^◌, Bool, true, false, ◌||◌, ◌&&◌, Option, none, some, List, [], ◌∷◌, ◌==◌, ltb,
  leb, filter, take, get_elem?, if◌then◌else◌,
}
use disaster_alert.Prelude.Int.{ℤ, pos, min_ℤ, saturating_add}
use disaster_alert.Text.{Text, text}
use disaster_alert.Event.{DisasterEvent, is_retired}
use disaster_alert.Subscription.{Subscription, MonitoringTarget, AlertRule, alert}
use disaster_alert.Delivery.{DeliveryBatch, DeliveryRow, RetryItem, DeliverySuccess, DeadLetterItem}
use disaster_alert.Storage.{
  Store, Codec, row_overflow, event_missing, Result, ok, err, ◌>>=◌, ◌>>◌, ensure, or_error,
}
use disaster_alert.Storage.Keyspace.{Map, get, nat_key}
use disaster_alert.Storage.Ingest.{next_id}
use disaster_alert.Storage.Lanes.{LaneOutcome, commit_delivery_lane_outcome}
use disaster_alert.Storage.Retries.{
  delivery_recorded, delivery_is_destination_head, pending_delivery_rows,
}

-- src/delivery/bark.rs, with the text of the error.
pub data BarkDeliveryError : Type 0 where
  transient permanent : Text → BarkDeliveryError

unfoldable pub is_permanent : BarkDeliveryError → Bool
is_permanent (transient message) = false
is_permanent (permanent message) = true

abbrev pub message_of : BarkDeliveryError → Text
message_of (transient message) = message
message_of (permanent message) = message

-- src/storage/fjall.rs.
pub record StoredSubscription : Type 0 where
  pub id : ℕ
  pub destination_id : ℕ
  pub generation : ℕ
  pub active : Bool
  pub subscription : Subscription

-- What comes of a notification: of its countdown, its link and its request.
pub data Sent : Type 0 where
  sent : Sent
  not_sent : BarkDeliveryError → Sent

abbrev pub Sender : Type 0
Sender =
    DisasterEvent → DeliveryBatch → DeliveryRow → Subscription → MonitoringTarget → AlertRule → Sent

-- The result of `deliver_row_locked`.
pub data Attempt : Type 0 where
  delivered : DeliverySuccess → Attempt
  skipped : Attempt
  failed : BarkDeliveryError → Attempt

attempt_of : ℕ → DeliveryRow → Sent → Attempt
attempt_of index row sent = delivered (record { row_index = index; row = row })
attempt_of index row (not_sent error) = failed error

module _ (send : Sender) (event : DisasterEvent) (batch : DeliveryBatch) (index : ℕ)
    (row : DeliveryRow) where
  send_to : Subscription → Attempt
  unfolding attempt_of alert
  send_to subscription = elim (get_elem? subscription.targets row.target_ordinal) [
    | none ↦ failed (permanent (text "compiled target ordinal is invalid"))
    | some target ↦ elim (alert subscription batch.category) [
      | none ↦ failed (permanent (text "subscription no longer has matching rule"))
      | some rule ↦ attempt_of index row (send event batch row subscription target rule)
    ]
  ]

  deliver_to : Option StoredSubscription → Attempt
  unfolding send_to
  deliver_to none = skipped
  deliver_to (some stored) =
      if stored.active && stored.generation == row.generation
      then send_to stored.subscription
      else skipped

  unfoldable pub deliver_row_locked : Map ℕ StoredSubscription → Store → Attempt
  unfolding is_retired delivery_recorded deliver_to get
  deliver_row_locked subscriptions s =
      if is_retired event.category
        || is_retired batch.category
        || delivery_recorded s batch.incident_id batch.category row.destination_id
            batch.event_revision
      then skipped
      else deliver_to (get subscriptions row.subscription_id)

-- `1 << attempts.min(10)` seconds, and at most fifteen minutes.
unfoldable pub retry_delay_ms : ℕ → ℤ
retry_delay_ms attempts =
    min_ℤ (pos (1000 * 2 ^ (if leb attempts 10 then attempts else 10))) (pos 900000)

unfoldable pub retry_item :
    ℤ → ℕ → ℕ → DeliveryRow → ℕ → ℤ → Text → Store → Result (RetryItem × Store)
unfolding next_id
retry_item now_ms batch_id index row attempts due_at_ms error s = do
  (id, s') ← next_id (text "retry") s
  ok (
    record {
      id = id;
      batch_id = batch_id;
      row_index = index;
      destination_id = row.destination_id;
      due_at_ms = due_at_ms;
      attempts = attempts;
      created_at_ms = now_ms;
      last_error = take 1024 error;
    },
    s',
  )

unfoldable pub dead_letter :
    ℤ → ℕ → ℕ → ℕ → ℕ → ℤ → BarkDeliveryError → Store → Result (DeadLetterItem × Store)
unfolding next_id is_permanent
dead_letter now_ms batch_id index destination_id attempts created_at_ms error s = do
  (id, s') ← next_id (text "dead_letter") s
  ok (
    record {
      id = id;
      batch_id = batch_id;
      row_index = index;
      destination_id = destination_id;
      attempts = attempts;
      created_at_ms = created_at_ms;
      failed_at_ms = now_ms;
      permanent = is_permanent error;
      last_error = take 1024 (message_of error);
    },
    s',
  )

abbrev pub no_outcome : LaneOutcome
no_outcome = record {
  completed_rows = [];
  skipped_rows = [];
  successes = [];
  retries = [];
  dead_letters = [];
}

-- A row with its outcome goes before the rows that follow it.
abbrev pub add_skipped : ℕ → LaneOutcome → LaneOutcome
add_skipped index o = record o {
  completed_rows = index ∷ o.completed_rows;
  skipped_rows = index ∷ o.skipped_rows;
}

abbrev pub add_success : ℕ → DeliverySuccess → LaneOutcome → LaneOutcome
add_success index success o = record o {
  completed_rows = index ∷ o.completed_rows;
  successes = success ∷ o.successes;
}

abbrev pub add_retry : ℕ → RetryItem → LaneOutcome → LaneOutcome
add_retry index retry o = record o {
  completed_rows = index ∷ o.completed_rows;
  retries = retry ∷ o.retries;
}

abbrev pub add_dead_letter : ℕ → DeadLetterItem → LaneOutcome → LaneOutcome
add_dead_letter index dead o = record o {
  completed_rows = index ∷ o.completed_rows;
  dead_letters = dead ∷ o.dead_letters;
}

module _ (send : Sender) (subscriptions : Map ℕ StoredSubscription) (now_ms : ℤ)
    (event : DisasterEvent) (batch : DeliveryBatch) where
  blocked_retry : ℕ → DeliveryRow → Store → Result (RetryItem × Store)
  unfolding retry_item retry_delay_ms
  blocked_retry index row =
      retry_item now_ms batch.id index row 0 (saturating_add now_ms (retry_delay_ms 0))
        (text "blocked by an earlier delivery for this destination")

  failed_retry : ℕ → DeliveryRow → Text → Store → Result (RetryItem × Store)
  unfolding retry_item retry_delay_ms
  failed_retry index row message =
      retry_item now_ms batch.id index row 1 (saturating_add now_ms (retry_delay_ms 0)) message

  -- The loop over the rows. A row that fails for the moment blocks those after it.
  unfoldable pub attempt_rows : Bool → List (ℕ × DeliveryRow) → Store → Result (LaneOutcome × Store)
  unfolding blocked_retry failed_retry deliver_row_locked
  attempt_rows blocked [] s = ok (no_outcome, s)
  attempt_rows true ((index, row) ∷ rows) s = do
    ensure (ltb index (2 ^ 32)) row_overflow
    (retry, s1) ← blocked_retry index row s
    (o, s2) ← attempt_rows true rows s1
    ok (add_retry index retry o, s2)
  attempt_rows false ((index, row) ∷ rows) s =
      let after_success = λ (success : DeliverySuccess).
        attempt_rows false rows s >>= λ rest. ok (add_success index success rest.0, rest.1) in
      let after_skip =
        attempt_rows false rows s >>= λ rest. ok (add_skipped index rest.0, rest.1) in
      let after_retry = λ (found : RetryItem × Store).
        attempt_rows true rows found.1 >>= λ rest. ok (add_retry index found.0 rest.0, rest.1) in
      let after_death = λ (found : DeadLetterItem × Store).
        attempt_rows false rows found.1 >>= λ rest.
        ok (add_dead_letter index found.0 rest.0, rest.1) in
      ensure (ltb index (2 ^ 32)) row_overflow
      >> elim (deliver_row_locked send event batch index row subscriptions s) [
        | delivered success ↦ after_success success
        | skipped ↦ after_skip
        | failed error ↦
            if is_permanent error
            then (dead_letter now_ms batch.id index row.destination_id 1 batch.created_at_ms error s
                >>= after_death)
            else (failed_retry index row (message_of error) s >>= after_retry)
      ]

  -- Where another delivery comes first, each row is put off as in a blocked lane.
  unfoldable pub process_destination_lane :
      Codec → List (ℕ × DeliveryRow) → Store → Result (LaneOutcome × Store)
  unfolding attempt_rows delivery_is_destination_head commit_delivery_lane_outcome
  process_destination_lane c [] s = ok (no_outcome, s)
  process_destination_lane c ((first_index, first) ∷ rows) s = do
    ensure (ltb first_index (2 ^ 32)) row_overflow
    let is_head = delivery_is_destination_head s first.destination_id batch.id first_index
    (o, s1) ← attempt_rows (if is_head then false else true) ((first_index, first) ∷ rows) s
    s2 ← commit_delivery_lane_outcome c now_ms batch.id o s1
    ok (o, s2)

-- One lane of `process_delivery_batch`: the pending rows of a destination.
unfoldable pub lane_of : ℕ → List (ℕ × DeliveryRow) → List (ℕ × DeliveryRow)
unfolding filter
lane_of destination_id = filter (λ entry. entry.1.destination_id == destination_id)
