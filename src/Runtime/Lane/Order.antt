-- ===== src/Runtime/Lane/Order.antt =====
-- The order within a lane: once a row is put off, so are the rows after it.
use disaster_alert.Prelude.{
  ℕ, ◌^◌, ◌≡◌, refl, Bool, true, false, List, [], ◌∷◌, ◌++◌, Bool-cases, inl, inr, arith, ap, ◌∙◌,
  ltb, if◌then◌else◌,
}
use disaster_alert.Prelude.Int.{ℤ, saturating_add}
use disaster_alert.Text.{Text, text}
use disaster_alert.Storage.Keyspace.{Map}
use disaster_alert.Storage.Ingest.{next_id}
use disaster_alert.Event.{DisasterEvent}
use disaster_alert.Delivery.{DeliveryBatch, DeliveryRow, RetryItem}
use disaster_alert.Storage.{Store, Codec, row_overflow, ok, ensure}
use disaster_alert.Storage.Incidents.Records.{bind-ok}
use disaster_alert.Storage.Lanes.{LaneOutcome, commit_delivery_lane_outcome}
use disaster_alert.Storage.Retries.{delivery_is_destination_head}
use disaster_alert.Runtime.Lane.{
  Sender, StoredSubscription, is_permanent, message_of, attempt_rows, blocked_retry, failed_retry,
  dead_letter, process_destination_lane, no_outcome, add_skipped, add_success, add_retry,
  add_dead_letter, retry_item, retry_delay_ms,
}
use disaster_alert.Runtime.Lane.Attempts.{deliver_row_locked-Tried}
use disaster_alert.Runtime.Lane.Acceptance.{retried_rows}

-- The rows that are put off are the last of those completed; in a blocked lane they are all of them.
abbrev pub InOrder : Bool → LaneOutcome → Type 0
InOrder blocked o =
    (front : List ℕ) × (o.completed_rows ≡ front ++ retried_rows o) × (blocked ≡ true → front ≡ [])

module _ (now_ms : ℤ) (b : DeliveryBatch) (index : ℕ) (row : DeliveryRow) (s s' : Store) where
  retry_item-row :
      (attempts : ℕ) (due_at_ms : ℤ) (error : Text) (retry : RetryItem)
      → retry_item now_ms b.id index row attempts due_at_ms error s ≡ ok (retry, s')
      → retry.row_index ≡ index
  unfolding retry_item
  retry_item-row attempts due_at_ms error retry run =
      let (found, _, built) = bind-ok (next_id (text "retry") s) _ run in ground (arith, built)

module _ (index : ℕ) (o : LaneOutcome) where
  add_retry-InOrder :
      (blocked : Bool) (retry : RetryItem)
      → retry.row_index ≡ index
      → InOrder true o
      → InOrder blocked (add_retry index retry o)
  add_retry-InOrder blocked retry same (front, split, none_before) = (
    [],
    rw same (ap (λ is. index ∷ is) (split ∙ ap (λ f. f ++ retried_rows o) (none_before refl))),
    λ h. refl,
  )

  -- A row that is not put off goes to the front.
  abbrev Front : List ℕ → Type 0
  Front retried =
      (front : List ℕ) × (index ∷ o.completed_rows ≡ front ++ retried) × (false ≡ true → front ≡ [])

  to_front : InOrder false o → Front (retried_rows o)
  to_front (front, split, none_before) =
      (index ∷ front, ap (λ is. index ∷ is) split, λ h. absurd (ground (arith, h)))

module _ (send : Sender) (subscriptions : Map ℕ StoredSubscription) (now_ms : ℤ)
    (event : DisasterEvent) (b : DeliveryBatch) where
  pub attempt_rows-InOrder :
      (blocked : Bool) (rows : List (ℕ × DeliveryRow)) (s : Store) (found : LaneOutcome × Store)
      → attempt_rows send subscriptions now_ms event b blocked rows s ≡ ok found
      → InOrder blocked found.0
  unfolding attempt_rows blocked_retry failed_retry
  attempt_rows-InOrder blocked [] s found run =
      let e : found.0 ≡ no_outcome = ground (arith, run) in rw e ([], refl, λ h. refl)
  attempt_rows-InOrder true ((index, row) ∷ rows) s found run =
      let (_, _, run1) = bind-ok (ensure (ltb index (2 ^ 32)) row_overflow) _ run in
      let (one, retried, run2) =
        bind-ok (blocked_retry send subscriptions now_ms event b index row s) _ run1 in
      let (rest, later, run3) =
        bind-ok (attempt_rows send subscriptions now_ms event b true rows one.1) _ run2 in
      let e : found.0 ≡ add_retry index one.0 rest.0 = ground (arith, run3) in
      rw e (
        add_retry-InOrder index rest.0 true one.0
          (retry_item-row now_ms b index row s one.1 0 (saturating_add now_ms (retry_delay_ms 0))
            (text "blocked by an earlier delivery for this destination") one.0 retried)
          (attempt_rows-InOrder true rows one.1 rest later))
  attempt_rows-InOrder false ((index, row) ∷ rows) s found run =
      let (_, _, run1) = bind-ok (ensure (ltb index (2 ^ 32)) row_overflow) _ run in
      elim (deliver_row_locked-Tried send subscriptions now_ms event b index row s) [
        | inl now ↦
            let (rest, later, run2) =
              bind-ok (attempt_rows send subscriptions now_ms event b false rows s) _
                (rw now at run1) in
            let e : found.0 ≡ add_success index (record { row_index = index; row = row }) rest.0 =
              ground (arith, run2) in
            rw e (to_front index rest.0 (attempt_rows-InOrder false rows s rest later))
        | inr (inl past) ↦
            let (rest, later, run2) =
              bind-ok (attempt_rows send subscriptions now_ms event b false rows s) _
                (rw past at run1) in
            let e : found.0 ≡ add_skipped index rest.0 = ground (arith, run2) in
            rw e (to_front index rest.0 (attempt_rows-InOrder false rows s rest later))
        | inr (inr (error, attempt)) ↦ elim (Bool-cases (is_permanent error)) [
          | inl for_good ↦
              let run2 = rw (attempt, for_good) at run1 in
              let (dead, _, run3) =
                bind-ok (dead_letter now_ms b.id index row.destination_id 1 b.created_at_ms error s)
                  _ run2 in
              let (rest, later, run4) =
                bind-ok (attempt_rows send subscriptions now_ms event b false rows dead.1) _ run3 in
              let e : found.0 ≡ add_dead_letter index dead.0 rest.0 = ground (arith, run4) in
              rw e (to_front index rest.0 (attempt_rows-InOrder false rows dead.1 rest later))
          | inr for_now ↦
              let run2 = rw (attempt, for_now) at run1 in
              let (one, retried, run3) =
                bind-ok
                  (failed_retry send subscriptions now_ms event b index row (message_of error) s) _
                  run2 in
              let (rest, later, run4) =
                bind-ok (attempt_rows send subscriptions now_ms event b true rows one.1) _ run3 in
              let e : found.0 ≡ add_retry index one.0 rest.0 = ground (arith, run4) in
              rw e (
                add_retry-InOrder index rest.0 false one.0
                  (retry_item-row now_ms b index row s one.1 1
                    (saturating_add now_ms (retry_delay_ms 0)) (message_of error) one.0 retried)
                  (attempt_rows-InOrder true rows one.1 rest later))
        ]
      ]

  -- When a lane is committed, the rows that it puts off are the last of those that it completes: no
  -- row is sent, passed over or given up after one that is to be tried again. A lane whose first row
  -- is not at the head of its destination puts every row off.
  pub process_destination_lane-InOrder :
      (c : Codec) (index : ℕ) (row : DeliveryRow) (rows : List (ℕ × DeliveryRow)) (s : Store)
      (found : LaneOutcome × Store)
      → process_destination_lane send subscriptions now_ms event b c ((index, row) ∷ rows) s
        ≡ ok found
      → (front : List ℕ) × (found.0.completed_rows ≡ front ++ retried_rows found.0)
        × (delivery_is_destination_head s row.destination_id b.id index ≡ false → front ≡ [])
  unfolding process_destination_lane
  process_destination_lane-InOrder c index row rows s found run =
      let is_head = delivery_is_destination_head s row.destination_id b.id index in
      let blocked = if is_head then false else true in
      let (_, _, run1) = bind-ok (ensure (ltb index (2 ^ 32)) row_overflow) _ run in
      let (o, attempted, run2) =
        bind-ok (attempt_rows send subscriptions now_ms event b blocked ((index, row) ∷ rows) s) _
          run1 in
      let (s', _, run3) = bind-ok (commit_delivery_lane_outcome c now_ms b.id o.0 o.1) _ run2 in
      let e : found.0 ≡ o.0 = ground (arith, run3) in
      let (front, split, none_before) =
        attempt_rows-InOrder blocked ((index, row) ∷ rows) s o attempted in
      rw e (front, split, λ h. none_before (rw h refl))
