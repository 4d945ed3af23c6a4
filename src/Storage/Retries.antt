-- ===== src/Storage/Retries.antt =====
-- src/storage/fjall.rs: the retries of deliveries that failed, with their two indexes.
pub mod Lookups
pub mod Indexed
pub mod Served
pub mod Lane
pub mod Scheduled
pub mod Steps
use disaster_alert.Prelude.{
  ℕ, ◌+◌, ◌*◌, ◌^◌, ◌/◌, Bool, true, false, not, ◌&&◌, ◌||◌, Option, none, some, List, [], ◌∷◌,
  ◌++◌, ◌==◌, ltb, leb, if◌then◌else◌, length, any, find?, get_elem?,
}
use disaster_alert.Prelude.Int.{ℤ, ltb_ℤ}
use disaster_alert.Event.{DisasterCategory}
use disaster_alert.Incident.{IncidentId}
use disaster_alert.Delivery.{
  DeliveryBatch, DeliveryRow, RetryItem, DeliverySuccess, DeadLetterItem, row_eq, retry_eq,
}
use disaster_alert.Storage.{
  Store, StoredDelivery, Codec, Error, batch_missing, row_invalid, mixed_destinations,
  success_mismatch, dead_letter_mismatch, retry_mismatch, retry_missing, retry_changed,
  retry_orphaned, Result, ok, err, ◌>>=◌, ◌>>◌, ensure, or_error, encode, delivery_batch_key,
  delivery_destination_key,
}
use disaster_alert.Storage.Keyspace.{Map, get, insert, remove, nat_key, text_key, pair_key}
use disaster_alert.Storage.Lanes.{
  ledger_key, retry_key, retry_destination_key, retry_batch_key, dead_letter_key,
  insert_retry_indexes, insert_ledger, progress_of, contains_row,
}

-- `delivery_batch`: pending or retained.
unfoldable pub delivery_batch : Store → ℕ → Option DeliveryBatch
unfolding get delivery_batch_key
delivery_batch s id = elim (get s.delivery_batches (delivery_batch_key 0 id)) [
  | none ↦ get s.delivery_batches (delivery_batch_key 1 id)
  | some b ↦ some b
]

unfoldable pub pending_from : List ℕ → ℕ → List DeliveryRow → List (ℕ × DeliveryRow)
unfolding contains_row
pending_from progress index [] = []
pending_from progress index (row ∷ rows) =
    let rest = pending_from progress (index + 1) rows in
    if ltb index (2 ^ 32) && not (contains_row progress index) then (index, row) ∷ rest else rest

unfoldable pub pending_delivery_rows : Store → ℕ → Result (List (ℕ × DeliveryRow))
unfolding get delivery_batch_key progress_of pending_from
pending_delivery_rows s id = do
  b ← or_error (get s.delivery_batches (delivery_batch_key 0 id)) batch_missing
  ok (pending_from (progress_of s id) 0 b.rows)

-- Whether a row is the first of its destination's lane.
unfoldable pub delivery_is_destination_head : Store → ℕ → ℕ → ℕ → Bool
unfolding find? delivery_destination_key
delivery_is_destination_head s destination_id batch_id row_index =
    elim (find? (λ (entry : ((ℕ × ℕ) × ℕ) × Unit {0}). entry.0.0.0 == destination_id)
      s.delivery_by_destination) [
        | none ↦ false
        | some entry ↦
            pair_key.beq entry.0 (delivery_destination_key destination_id batch_id row_index)
      ]

abbrev DestinationEntry : Type 0
DestinationEntry = ((ℕ × ℕ) × (ℕ × ℕ)) × (ℕ × ℕ)

is_current : Store → RetryItem → Bool
unfolding get retry_key retry_eq
is_current s retry = elim (get s.retries (retry_key retry)) [
  | none ↦ false
  | some stored ↦ retry_eq stored retry
]

unfoldable pub retry_is_destination_head : Store → RetryItem → Bool
unfolding is_current find? retry_destination_key delivery_is_destination_head
retry_is_destination_head s retry =
    is_current s retry
    && elim (find? (λ (entry : DestinationEntry). entry.0.0.0 == retry.destination_id)
        s.retries_by_destination) [
          | none ↦ false
          | some entry ↦
              pair_key.beq entry.0 (retry_destination_key retry)
              && delivery_is_destination_head s retry.destination_id retry.batch_id retry.row_index
        ]

is_previous : Option ℕ → ℕ → Bool
is_previous none destination = false
is_previous (some previous) destination = previous == destination

module _ (s : Store) (now_ms : ℤ) (limit : ℕ) where
  is_due_head : RetryItem → Bool
  unfolding retry_is_destination_head
  is_due_head retry = not (ltb_ℤ now_ms retry.due_at_ms) && retry_is_destination_head s retry

  -- The first entry of each destination is looked at.
  due_heads : List RetryItem → Option ℕ → List DestinationEntry → Result (List RetryItem)
  unfolding get retry_destination_key is_due_head is_previous
  due_heads heads previous [] = ok heads
  due_heads heads previous ((index_key, key) ∷ entries) =
      let passed = due_heads heads previous entries in
      if is_previous previous index_key.0.0 then passed else do
        retry ← or_error (get s.retries key) retry_missing
        ensure
            (retry.destination_id == index_key.0.0
              && pair_key.beq (retry_destination_key retry) index_key)
            retry_orphaned
        let heads' = heads ++ retry ∷ []
        let later = due_heads heads (some index_key.0.0) entries
        let more = due_heads heads' (some index_key.0.0) entries
        (if not (is_due_head retry)
            then later
            else if length heads' == limit
            then ok heads'
            else more)

unfoldable pub due_retry_heads : Store → ℤ → ℕ → Result (List RetryItem)
unfolding due_heads
due_retry_heads s now_ms limit = due_heads s now_ms limit [] none s.retries_by_destination

unfoldable pub reschedule_retry : Codec → RetryItem → RetryItem → Store → Result Store
unfolding get remove retry_key retry_eq insert_retry_indexes
reschedule_retry c previous next s = do
  ensure
      (previous.id == next.id
        && previous.batch_id == next.batch_id
        && previous.row_index == next.row_index
        && previous.destination_id == next.destination_id)
      retry_mismatch
  stored ← or_error (get s.retries (retry_key previous)) retry_missing
  ensure (retry_eq stored previous) retry_changed
  insert_retry_indexes c next (record s { retries = remove s.retries (retry_key previous) })

unfoldable pub ensure_retry_current : Store → RetryItem → Result (Unit {0})
unfolding get retry_key retry_eq
ensure_retry_current s retry = do
  stored ← or_error (get s.retries (retry_key retry)) retry_missing
  ensure (retry_eq stored retry) retry_changed

unfoldable pub remove_retry_indexes : RetryItem → Store → Store
unfolding remove retry_key retry_destination_key retry_batch_key
remove_retry_indexes retry w = record w {
  retries = remove w.retries (retry_key retry);
  retries_by_destination = remove w.retries_by_destination (retry_destination_key retry);
  retries_by_batch = remove w.retries_by_batch (retry_batch_key retry);
}

-- Whether the batch of a retry has another one.
unfoldable pub has_other : Store → RetryItem → Bool
unfolding any retry_batch_key
has_other s retry =
    any
      (λ (entry : (ℕ × ℕ) × (ℕ × ℕ)).
        entry.0.0 == retry.batch_id && not (pair_key.beq entry.0 (retry_batch_key retry)))
      s.retries_by_batch

unfoldable pub complete_retry_in_batch : Store → RetryItem → Store → Store
unfolding has_other remove_retry_indexes remove delivery_destination_key delivery_batch_key
complete_retry_in_batch s retry w =
    let w' = remove_retry_indexes retry w in
    let left : Store = record w' {
      delivery_by_destination =
          remove w'.delivery_by_destination
            (delivery_destination_key retry.destination_id retry.batch_id retry.row_index);
    } in
    if has_other s retry then left else record left {
      delivery_batches = remove left.delivery_batches (delivery_batch_key 1 retry.batch_id);
    }

unfoldable pub complete_retry : RetryItem → Store → Result Store
unfolding get retry_key ensure_retry_current complete_retry_in_batch
complete_retry retry s = elim (get s.retries (retry_key retry)) [
  | none ↦ ok s
  | some stored ↦ ensure_retry_current s retry >> ok (complete_retry_in_batch s retry s)
]

unfoldable pub record_success :
    Codec
    → ℤ
    → DeliveryBatch
    → DeliveryRow
    → RetryItem
    → Option DeliverySuccess
    → Store
    → Result Store
unfolding row_eq insert_ledger
record_success c now_ms b row retry none s = ok s
record_success c now_ms b row retry (some success) s = do
  ensure (success.row_index == retry.row_index && row_eq success.row row) success_mismatch
  insert_ledger c now_ms b success.row s

unfoldable pub complete_retry_with_success :
    Codec → ℤ → RetryItem → Option DeliverySuccess → Store → Result Store
unfolding ensure_retry_current delivery_batch record_success complete_retry_in_batch
complete_retry_with_success c now_ms retry success s = do
  ensure_retry_current s retry
  b ← or_error (delivery_batch s retry.batch_id) batch_missing
  row ← or_error (get_elem? b.rows retry.row_index) row_invalid
  ensure (row.destination_id == retry.destination_id) mixed_destinations
  w ← record_success c now_ms b row retry success s
  ok (complete_retry_in_batch s retry w)

unfoldable pub dead_letter_retry : Codec → RetryItem → DeadLetterItem → Store → Result Store
unfolding ensure_retry_current encode insert dead_letter_key complete_retry_in_batch
dead_letter_retry c retry dead_letter s = do
  ensure_retry_current s retry
  ensure
      (dead_letter.batch_id == retry.batch_id
        && dead_letter.row_index == retry.row_index
        && dead_letter.destination_id == retry.destination_id)
      dead_letter_mismatch
  encode (c.dead_letter dead_letter)
  ok (
      complete_retry_in_batch s retry (record s {
        dead_letters = insert s.dead_letters (dead_letter_key dead_letter) dead_letter;
      }))

-- Whether a delivery of the given revision is in the ledger.
unfoldable pub delivery_recorded : Store → IncidentId → DisasterCategory → ℕ → ℕ → Bool
unfolding get ledger_key
delivery_recorded s incident_id category destination_id event_revision =
    elim (get s.ledger (ledger_key incident_id category destination_id)) [
      | none ↦ false
      | some delivery ↦ delivery.event_revision == event_revision
    ]
