-- ===== src/Runtime/Lane/Acceptance.antt =====
-- The store accepts an outcome that covers its lane.
use disaster_alert.Prelude.{
  ℕ, ◌+◌, ◌≤◌, true, ◌≡◌, refl, some, List, [], ◌∷◌, length, All, map, get_elem?, arith, ap, ◌∙◌,
  ==_iff, ltb, ◌||◌,
}
use disaster_alert.Prelude.Int.{ℤ}
use disaster_alert.Delivery.{DeliveryBatch, RetryItem, DeliverySuccess, DeadLetterItem}
use disaster_alert.Storage.{Store, Codec, ok, delivery_batch_key}
use disaster_alert.Storage.Keyspace.{get, nat_key, pair_key}
use disaster_alert.Storage.Lanes.{
  LaneOutcome, commit_outcome, commit_delivery_lane_outcome, retry_rows, progress_of, row_set,
  same_rows, contains_row, finish_batch, has_retries,
}
use disaster_alert.Storage.Lanes.Rows.{times, contains_row-times}
use disaster_alert.Runtime.Lane.Totals.{
  IsRoomy, row_set-once, same_rows-times, Place, LaneRows, skip_rows_accepts,
  commit_successes_accepts, commit_dead_letters_accepts, commit_retries_accepts,
  commit_rows_accepts, check_lane_accepts,
}

pub length-map : {A B : Type 0} (f : A → B) (xs : List A) → length (map f xs) ≡ length xs
length-map f [] = refl
length-map f (x ∷ xs) = omega (arith, length-map f xs)

abbrev pub success_rows : LaneOutcome → List ℕ
success_rows o = map (λ success. success.row_index) o.successes

abbrev pub dead_rows : LaneOutcome → List ℕ
dead_rows o = map (λ dead. dead.row_index) o.dead_letters

abbrev pub retried_rows : LaneOutcome → List ℕ
retried_rows o = map (λ retry. retry.row_index) o.retries

-- Each completed row has one outcome, and each outcome is about a row of the batch.
pub record IsCovering (b : DeliveryBatch) (id : ℕ) (o : LaneOutcome) : Type 0 where
  pub one :
      (i : ℕ)
      → times i o.skipped_rows
          + times i (success_rows o)
          + times i (dead_rows o)
          + times i (retried_rows o)
        ≡ times i o.completed_rows
  pub size :
      length o.skipped_rows
        + length (success_rows o)
        + length (dead_rows o)
        + length (retried_rows o)
      ≡ length o.completed_rows
  pub delivered_places :
      All
        (λ (success : DeliverySuccess). get_elem? b.rows success.row_index ≡ some success.row)
        o.successes
  pub dead_places :
      All
        (λ (dead : DeadLetterItem). Place b id dead.batch_id dead.row_index dead.destination_id)
        o.dead_letters
  pub retry_places :
      All
        (λ (retry : RetryItem). Place b id retry.batch_id retry.row_index retry.destination_id)
        o.retries
  pub dead_short : All (λ (dead : DeadLetterItem). length dead.last_error ≤ 1024) o.dead_letters
  pub retry_short : All (λ (retry : RetryItem). length retry.last_error ≤ 1024) o.retries

module _ (c : Codec) (roomy : IsRoomy c) (now_ms : ℤ) (id destination : ℕ) (o : LaneOutcome)
    (b : DeliveryBatch) (s : Store) (covering : IsCovering b id o)
    (lane : LaneRows b destination o.completed_rows) (once : (i : ℕ) → times i o.completed_rows ≤ 1)
    (fresh : (i : ℕ) → 1 ≤ times i o.completed_rows → times i (progress_of s id) ≡ 0) where
  abbrev rows : List ℕ
  rows = o.completed_rows

  within : (i : ℕ) → 1 ≤ times i rows → contains_row rows i ≡ true
  within i h = ground (arith, contains_row-times rows i)

  commit_outcome_accepts : (s' : Store) × (commit_outcome c now_ms id o b s ≡ ok s')
  unfolding commit_outcome retry_rows
  commit_outcome_accepts =
      let (w1, e1, g1) = skip_rows_accepts rows o.skipped_rows [] s (λ i.
        (omega (arith, covering.one i, once i), λ h. within i (omega (arith, covering.one i)))) in
      let (w2, e2, g2) =
        commit_successes_accepts c roomy now_ms b rows o.successes w1.0 w1.1
          (λ i. (
            omega (arith, covering.one i, once i, g1.1 i),
            λ h. within i (omega (arith, covering.one i)),
          ))
          covering.delivered_places in
      let (w3, e3, g3) =
        commit_dead_letters_accepts c roomy now_ms b rows id o.dead_letters w2.0 w2.1
          (λ i. (
            omega (arith, covering.one i, once i, g1.1 i, g2.1 i),
            λ h. within i (omega (arith, covering.one i)),
          ))
          covering.dead_places covering.dead_short in
      let (w4, e4, g4) =
        commit_retries_accepts c roomy now_ms b rows id o.retries w3.0 w3.1
          (λ i. (
            omega (arith, covering.one i, once i, g1.1 i, g2.1 i, g3.1 i),
            λ h. within i (omega (arith, covering.one i)),
          ))
          covering.retry_places covering.retry_short in
      let same : same_rows w4.0 (row_set rows) ≡ true = rw (row_set-once rows once) (
        same_rows-times w4.0 rows (omega (arith, covering.size, g1.0, g2.0, g3.0, g4.0))
          (λ i. omega (arith, covering.one i, g1.1 i, g2.1 i, g3.1 i, g4.1 i))) in
      let (after, e5) =
        commit_rows_accepts id destination b (retry_rows o) rows (progress_of s id) w4.1 lane
          (λ i h. omega (arith, once i, fresh i h)) in
      (
        finish_batch id b (ltb 0 (length o.retries) || has_retries s id) after.0 after.1,
        rw (e1, e2, e3, e4, same, e5) refl,
      )

  pub commit_delivery_lane_outcome_accepts :
      get s.delivery_batches (delivery_batch_key 0 id) ≡ some b
      → b.id ≡ id
      → (s' : Store) × (commit_delivery_lane_outcome c now_ms id o s ≡ ok s')
  unfolding commit_delivery_lane_outcome retry_rows
  commit_delivery_lane_outcome_accepts stored same =
      let (s', run) = commit_outcome_accepts in
      (
        s',
        rw
            (
              stored,
              (==_iff b.id id).1 same,
              (==_iff (length (row_set rows)) (length rows)).1 (ap length (row_set-once rows once)),
              (check_lane_accepts b destination rows lane).1,
              (==_iff (length (row_set (retried_rows o))) (length o.retries)).1 (
                  ap length
                    (row_set-once (retried_rows o) (λ i. omega (arith, covering.one i, once i)))
                  ∙ length-map _ o.retries),
            )
            run,
      )
