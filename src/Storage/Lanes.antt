-- ===== src/Storage/Lanes.antt =====
-- src/storage/fjall.rs: `commit_delivery_lane_outcome`, which records what became of some rows of a
-- delivery batch.
--
-- A set of rows is a list without repetitions. A failure to read the clock is not modelled: `now_ms`
-- stands for it.
pub mod Rows
pub mod Outcome
pub mod Progress
pub mod Pending
use disaster_alert.Prelude.{
  ℕ, ◌+◌, ◌*◌, ◌^◌, ◌/◌, Bool, true, false, not, ◌&&◌, ◌||◌, Option, none, some, List, [], ◌∷◌,
  ◌++◌, ◌==◌, ltb, leb, if◌then◌else◌, length, any, all, map, find?, get_elem?,
}
use disaster_alert.Prelude.Int.{ℤ, pos_part}
use disaster_alert.Text.{Text}
use disaster_alert.Event.{DisasterCategory}
use disaster_alert.Event.Digest.{as_bytes, to_be_bytes}
use disaster_alert.Incident.{IncidentId}
use disaster_alert.Delivery.{
  DeliveryBatch, DeliveryRow, RetryItem, DeliverySuccess, DeadLetterItem, row_eq,
}
use disaster_alert.Storage.{
  Store, StoredDelivery, Codec, Error, batch_missing, batch_mismatch, row_invalid, row_repeated,
  repeated_completed, mixed_destinations, repeated_retry, skipped_mismatch, success_mismatch,
  dead_letter_mismatch, retry_mismatch, outcome_missing, Result, ok, err, ◌>>=◌, ◌>>◌, ensure,
  or_error, encode, delivery_batch_key, delivery_destination_key, category_code,
}
use disaster_alert.Storage.Keyspace.{Map, get, insert, remove, nat_key, text_key, pair_key}

unfoldable pub ledger_prefix : IncidentId → DisasterCategory → Text
unfolding as_bytes category_code
ledger_prefix incident_id category = as_bytes incident_id ++ category_code category ∷ []

unfoldable pub ledger_key : IncidentId → DisasterCategory → ℕ → Text
unfolding ledger_prefix to_be_bytes
ledger_key incident_id category destination_id =
    ledger_prefix incident_id category ++ to_be_bytes 8 destination_id

-- A `u64` key, and a time before the epoch counts as the epoch.
unfoldable pub retry_key : RetryItem → ℕ × ℕ
retry_key retry = (pos_part retry.due_at_ms, retry.id)

unfoldable pub retry_destination_key : RetryItem → (ℕ × ℕ) × (ℕ × ℕ)
retry_destination_key retry = ((retry.destination_id, retry.batch_id), (retry.row_index, retry.id))

unfoldable pub retry_batch_key : RetryItem → ℕ × ℕ
retry_batch_key retry = (retry.batch_id, retry.id)

unfoldable pub dead_letter_key : DeadLetterItem → ℕ × ℕ
dead_letter_key dead_letter = (pos_part dead_letter.failed_at_ms, dead_letter.id)

unfoldable pub contains_row : List ℕ → ℕ → Bool
unfolding any
contains_row rows row = any (λ other. other == row) rows

-- `HashSet::from_iter`.
unfoldable pub row_set : List ℕ → List ℕ
unfolding contains_row
row_set [] = []
row_set (row ∷ rows) = let rest = row_set rows in if contains_row rest row then rest else row ∷ rest

-- `HashSet` equality.
unfoldable pub same_rows : List ℕ → List ℕ → Bool
unfolding contains_row all
same_rows xs ys = length xs == length ys && (all (contains_row ys) xs && all (contains_row xs) ys)

unfoldable pub progress_of : Store → ℕ → List ℕ
unfolding get
progress_of s id = elim (get s.delivery_progress id) [ none ↦ [] | some rows ↦ rows ]

-- Every completed row is a row of the batch, and all have one destination.
unfoldable pub check_lane : DeliveryBatch → Option ℕ → List ℕ → Result (Unit {0})
check_lane b destination [] = ok tt
check_lane b none (index ∷ rows) = do
  row ← or_error (get_elem? b.rows index) row_invalid
  check_lane b (some row.destination_id) rows
check_lane b (some destination) (index ∷ rows) = do
  row ← or_error (get_elem? b.rows index) row_invalid
  ensure (destination == row.destination_id) mixed_destinations
  check_lane b (some row.destination_id) rows

-- `completed.contains(row) && terminal_rows.insert(row)`.
unfoldable pub is_open : List ℕ → List ℕ → ℕ → Bool
unfolding contains_row
is_open completed terminal row = contains_row completed row && not (contains_row terminal row)

-- The terminal rows that were found, and the store that is written.
abbrev pub Written : Type 0
Written = List ℕ × Store

unfoldable pub insert_retry_indexes : Codec → RetryItem → Store → Result Store
unfolding encode insert retry_key retry_destination_key retry_batch_key
insert_retry_indexes c retry w = do
  encode (c.retry retry)
  ok (record w {
    retries = insert w.retries (retry_key retry) retry;
    retries_by_destination =
        insert w.retries_by_destination (retry_destination_key retry) (retry_key retry);
    retries_by_batch = insert w.retries_by_batch (retry_batch_key retry) (retry_key retry);
  })

unfoldable pub skip_rows : List ℕ → List ℕ → Written → Result Written
unfolding is_open
skip_rows completed [] w = ok w
skip_rows completed (row ∷ rows) (terminal, w) = do
  ensure (is_open completed terminal row) skipped_mismatch
  skip_rows completed rows (row ∷ terminal, w)

unfoldable pub stored_delivery : ℤ → DeliveryBatch → DeliveryRow → StoredDelivery
stored_delivery now_ms b row = record {
  delivered_at_ms = now_ms;
  event_revision = b.event_revision;
  row = row;
}

unfoldable pub insert_ledger : Codec → ℤ → DeliveryBatch → DeliveryRow → Store → Result Store
unfolding encode insert ledger_key stored_delivery
insert_ledger c now_ms b row w = do
  encode (c.stored_delivery (stored_delivery now_ms b row))
  ok (record w {
    ledger =
        insert w.ledger (ledger_key b.incident_id b.category row.destination_id)
          (stored_delivery now_ms b row);
  })

module _ (c : Codec) (now_ms : ℤ) (b : DeliveryBatch) (completed : List ℕ) where
  unfoldable pub commit_successes : List DeliverySuccess → Written → Result Written
  unfolding is_open row_eq insert_ledger
  commit_successes [] w = ok w
  commit_successes (success ∷ successes) (terminal, w) = do
    row ← or_error (get_elem? b.rows success.row_index) row_invalid
    ensure (is_open completed terminal success.row_index && row_eq row success.row) success_mismatch
    w' ← insert_ledger c now_ms b success.row w
    commit_successes successes (success.row_index ∷ terminal, w')

  unfoldable pub commit_dead_letters : ℕ → List DeadLetterItem → Written → Result Written
  unfolding is_open encode insert dead_letter_key
  commit_dead_letters id [] w = ok w
  commit_dead_letters id (dead_letter ∷ dead_letters) (terminal, w) = do
    row ← or_error (get_elem? b.rows dead_letter.row_index) row_invalid
    ensure
        (dead_letter.batch_id == id
          && dead_letter.destination_id == row.destination_id
          && is_open completed terminal dead_letter.row_index)
        dead_letter_mismatch
    encode (c.dead_letter dead_letter)
    commit_dead_letters id dead_letters (
      dead_letter.row_index ∷ terminal,
      record w { dead_letters = insert w.dead_letters (dead_letter_key dead_letter) dead_letter },
    )

  unfoldable pub commit_retries : ℕ → List RetryItem → Written → Result Written
  unfolding is_open insert_retry_indexes
  commit_retries id [] w = ok w
  commit_retries id (retry ∷ retries) (terminal, w) = do
    row ← or_error (get_elem? b.rows retry.row_index) row_invalid
    ensure
        (retry.batch_id == id
          && retry.destination_id == row.destination_id
          && is_open completed terminal retry.row_index)
        retry_mismatch
    w' ← insert_retry_indexes c retry w
    commit_retries id retries (retry.row_index ∷ terminal, w')

-- The completed rows go into the progress; a row that is not to be tried again leaves its lane.
unfoldable pub commit_rows :
    ℕ → DeliveryBatch → List ℕ → List ℕ → List ℕ → Store → Result (List ℕ × Store)
unfolding contains_row remove delivery_destination_key
commit_rows id b retry_rows [] progress w = ok (progress, w)
commit_rows id b retry_rows (index ∷ rows) progress w = do
  row ← or_error (get_elem? b.rows index) row_invalid
  ensure (not (contains_row progress index)) row_repeated
  commit_rows id b retry_rows rows (index ∷ progress) (
      if contains_row retry_rows index then w else record w {
        delivery_by_destination =
            remove w.delivery_by_destination (delivery_destination_key row.destination_id id index);
      })

-- Whether a retry of the batch is stored.
unfoldable pub has_retries : Store → ℕ → Bool
unfolding any
has_retries s id = any (λ (entry : (ℕ × ℕ) × (ℕ × ℕ)). entry.0.0 == id) s.retries_by_batch

-- A batch whose rows are all done is dropped, or kept for its retries.
unfoldable pub finish_batch : ℕ → DeliveryBatch → Bool → List ℕ → Store → Store
unfolding insert remove delivery_batch_key
finish_batch id b retained progress w =
    if length progress == length b.rows
    then (let dropped : Store = record w {
      delivery_batches = remove w.delivery_batches (delivery_batch_key 0 id);
      delivery_progress = remove w.delivery_progress id;
    } in
        if retained
        then record dropped {
          delivery_batches = insert dropped.delivery_batches (delivery_batch_key 1 id) b;
        }
        else dropped)
    else record w { delivery_progress = insert w.delivery_progress id progress }

pub record LaneOutcome : Type 0 where
  pub completed_rows : List ℕ
  pub skipped_rows : List ℕ
  pub successes : List DeliverySuccess
  pub retries : List RetryItem
  pub dead_letters : List DeadLetterItem

unfoldable pub retry_rows : LaneOutcome → List ℕ
retry_rows o = map (λ retry. retry.row_index) o.retries

module _ (c : Codec) (now_ms : ℤ) (id : ℕ) (o : LaneOutcome) where
  -- The steps after the first tests.
  unfoldable pub commit_outcome : DeliveryBatch → Store → Result Store
  unfolding skip_rows commit_successes commit_dead_letters commit_retries commit_rows same_rows
      row_set progress_of finish_batch has_retries retry_rows
  commit_outcome b s = do
    skipped ← skip_rows o.completed_rows o.skipped_rows ([], s)
    succeeded ← commit_successes c now_ms b o.completed_rows o.successes skipped
    dead ← commit_dead_letters c now_ms b o.completed_rows id o.dead_letters succeeded
    retried ← commit_retries c now_ms b o.completed_rows id o.retries dead
    ensure (same_rows retried.0 (row_set o.completed_rows)) outcome_missing
    (progress, w) ← commit_rows id b (retry_rows o) o.completed_rows (progress_of s id) retried.1
    ok (finish_batch id b (ltb 0 (length o.retries) || has_retries s id) progress w)

  unfoldable pub commit_delivery_lane_outcome : Store → Result Store
  unfolding get delivery_batch_key row_set check_lane retry_rows commit_outcome
  commit_delivery_lane_outcome s = do
    b ← or_error (get s.delivery_batches (delivery_batch_key 0 id)) batch_missing
    ensure (b.id == id) batch_mismatch
    ensure (length (row_set o.completed_rows) == length o.completed_rows) repeated_completed
    check_lane b none o.completed_rows
    ensure (length (row_set (retry_rows o)) == length o.retries) repeated_retry
    commit_outcome b s
