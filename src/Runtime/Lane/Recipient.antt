-- ===== src/Runtime/Lane/Recipient.antt =====
-- What the deliveries of a lane had: a subscription that still stands, and no delivery before.
use disaster_alert.Prelude.{
  ℕ, ◌^◌, Option, ◌≡◌, refl, Bool, true, false, ◌||◌, ◌&&◌, ◌==◌, none, some, List, [], ◌∷◌, All,
  get_elem?, Bool-cases, Option-cases, inl, inr, arith, ltb, ◌∙◌, if◌then◌else◌,
}
use disaster_alert.Prelude.Int.{ℤ, saturating_add}
use disaster_alert.Text.{Text, text}
use disaster_alert.Event.{DisasterEvent, is_retired}
use disaster_alert.Subscription.{Subscription, MonitoringTarget, AlertRule, alert}
use disaster_alert.Delivery.{DeliveryBatch, DeliveryRow, DeliverySuccess, RetryItem, DeadLetterItem}
use disaster_alert.Storage.{Store, Codec, row_overflow, ok, ensure}
use disaster_alert.Storage.Ingest.{next_id}
use disaster_alert.Storage.Incidents.Records.{bind-ok}
use disaster_alert.Storage.Keyspace.{Map, get, nat_key}
use disaster_alert.Storage.Lanes.{LaneOutcome, commit_delivery_lane_outcome}
use disaster_alert.Storage.Retries.{delivery_recorded, delivery_is_destination_head}
use disaster_alert.Runtime.Lane.{
  Sender, BarkDeliveryError, StoredSubscription, Sent, sent, not_sent, delivered, attempt_of,
  send_to, deliver_to, deliver_row_locked, attempt_rows, blocked_retry, failed_retry, retry_item,
  retry_delay_ms, dead_letter, is_permanent, message_of, no_outcome, add_success, add_skipped,
  add_retry, add_dead_letter, process_destination_lane,
}
use disaster_alert.Runtime.Lane.Attempts.{deliver_row_locked-Tried}

next_id-ledger :
    (name : Text) (s : Store) (found : ℕ × Store)
    → next_id name s ≡ ok found
    → found.1.ledger ≡ s.ledger
unfolding next_id
next_id-ledger name s found run = ground arith

retry_item-ledger :
    (now_ms : ℤ) (batch_id index : ℕ) (row : DeliveryRow) (attempts : ℕ) (due_at_ms : ℤ)
    (error : Text) (s : Store) (found : RetryItem × Store)
    → retry_item now_ms batch_id index row attempts due_at_ms error s ≡ ok found
    → found.1.ledger ≡ s.ledger
unfolding retry_item
retry_item-ledger now_ms batch_id index row attempts due_at_ms error s found run =
    let (next, given, built) = bind-ok (next_id (text "retry") s) _ run in
    ground (arith, built, next_id-ledger (text "retry") s next given)

dead_letter-ledger :
    (now_ms : ℤ) (batch_id index destination_id attempts : ℕ) (created_at_ms : ℤ)
    (error : BarkDeliveryError) (s : Store) (found : DeadLetterItem × Store)
    → dead_letter now_ms batch_id index destination_id attempts created_at_ms error s ≡ ok found
    → found.1.ledger ≡ s.ledger
unfolding dead_letter
dead_letter-ledger now_ms batch_id index destination_id attempts created_at_ms error s found run =
    let (next, given, built) = bind-ok (next_id (text "dead_letter") s) _ run in
    ground (arith, built, next_id-ledger (text "dead_letter") s next given)

module _ (send : Sender) (subscriptions : Map ℕ StoredSubscription) (now_ms : ℤ)
    (event : DisasterEvent) (b : DeliveryBatch) where
  -- The notification went out to a target of the subscription, under a rule for the category.
  pub record Notified (row : DeliveryRow) (subscription : Subscription) : Type 0 where
    pub target : MonitoringTarget
    pub has_target : get_elem? subscription.targets row.target_ordinal ≡ some target
    pub rule : AlertRule
    pub has_rule : alert subscription b.category ≡ some rule
    pub was_sent : send event b row subscription target rule ≡ sent

  -- The row has a subscription that is active and that it was matched for, and this was notified.
  pub record Current (row : DeliveryRow) (found : Option StoredSubscription) : Type 0 where
    pub stored : StoredSubscription
    pub here : found ≡ some stored
    pub active : stored.active ≡ true
    pub generation : stored.generation ≡ row.generation
    pub notified : Notified row stored.subscription

  pub record Delivered (s : Store) (row : DeliveryRow) : Type 0 where
    pub event_served : is_retired event.category ≡ false
    pub batch_served : is_retired b.category ≡ false
    pub new :
        delivery_recorded s b.incident_id b.category row.destination_id b.event_revision ≡ false
    pub current : Current row (get subscriptions row.subscription_id)

  module _ (index : ℕ) (row : DeliveryRow) (success : DeliverySuccess) where
    attempt_of-delivered :
        (outcome : Sent) → attempt_of index row outcome ≡ delivered success → outcome ≡ sent
    unfolding attempt_of
    attempt_of-delivered sent h = refl
    attempt_of-delivered (not_sent error) h = ground (arith, h)

    send_to-delivered :
        (subscription : Subscription)
        → send_to send event b index row subscription ≡ delivered success
        → Notified row subscription
    unfolding send_to
    send_to-delivered subscription h =
        elim (Option-cases (get_elem? subscription.targets row.target_ordinal)) [
          | inl missing ↦ absurd (ground (arith, rw (send_to, missing) at h))
          | inr (target, found) ↦ elim (Option-cases (alert subscription b.category)) [
            | inl no_rule ↦ absurd (ground (arith, rw (send_to, found, no_rule) at h))
            | inr (rule, ruled) ↦ record {
              target = target;
              has_target = found;
              rule = rule;
              has_rule = ruled;
              was_sent =
                  attempt_of-delivered (send event b row subscription target rule)
                    (rw (send_to, found, ruled) at h);
            }
          ]
        ]

    deliver_to-delivered :
        (found : Option StoredSubscription)
        → deliver_to send event b index row found ≡ delivered success
        → Current row found
    unfolding deliver_to
    deliver_to-delivered none h = absurd (ground (arith, h))
    deliver_to-delivered (some stored) h =
        elim (Bool-cases (stored.active && stored.generation == row.generation)) [
          | inl current ↦ record {
            stored = stored;
            here = refl;
            active = ground (arith, current);
            generation = ground (arith, current);
            notified = send_to-delivered stored.subscription (rw current at h);
          }
          | inr stale ↦ absurd (ground (arith, rw stale at h))
        ]

    deliver_row_locked-delivered :
        (s : Store)
        → deliver_row_locked send event b index row subscriptions s ≡ delivered success
        → Delivered s row
    unfolding deliver_row_locked
    deliver_row_locked-delivered s h =
        elim (Bool-cases (
          is_retired event.category
          || is_retired b.category
          || delivery_recorded s b.incident_id b.category row.destination_id b.event_revision)) [
            | inl past ↦ absurd (ground (arith, rw past at h))
            | inr fresh ↦ record {
              event_served = ground (arith, fresh);
              batch_served = ground (arith, fresh);
              new = ground (arith, fresh);
              current =
                  deliver_to-delivered (get subscriptions row.subscription_id) (rw fresh at h);
            }
          ]

  -- What the ledger held at the start of a lane counts for all of it.
  Delivered-ledger :
      (s s' : Store) (row : DeliveryRow) → s'.ledger ≡ s.ledger → Delivered s' row → Delivered s row
  unfolding delivery_recorded
  Delivered-ledger s s' row same d = record {
    event_served = d.event_served;
    batch_served = d.batch_served;
    new = ground (arith, same, d.new);
    current = d.current;
  }

  abbrev AllDelivered : Store → LaneOutcome → Type 0
  AllDelivered s o = All (λ (success : DeliverySuccess). Delivered s success.row) o.successes

  attempt_rows-Delivered :
      (start : Store) (blocked : Bool) (rows : List (ℕ × DeliveryRow)) (s : Store)
      (found : LaneOutcome × Store)
      → s.ledger ≡ start.ledger
      → attempt_rows send subscriptions now_ms event b blocked rows s ≡ ok found
      → AllDelivered start found.0
  unfolding attempt_rows blocked_retry failed_retry
  attempt_rows-Delivered start blocked [] s found same run =
      let e : found.0 ≡ no_outcome = ground (arith, run) in rw e tt
  attempt_rows-Delivered start true ((index, row) ∷ rows) s found same run =
      let (_, _, run1) = bind-ok (ensure (ltb index (2 ^ 32)) row_overflow) _ run in
      let (one, retried, run2) =
        bind-ok (blocked_retry send subscriptions now_ms event b index row s) _ run1 in
      let (rest, later, run3) =
        bind-ok (attempt_rows send subscriptions now_ms event b true rows one.1) _ run2 in
      let e : found.0 ≡ add_retry index one.0 rest.0 = ground (arith, run3) in
      rw e (
        attempt_rows-Delivered start true rows one.1 rest
          (retry_item-ledger now_ms b.id index row 0 (saturating_add now_ms (retry_delay_ms 0))
              (text "blocked by an earlier delivery for this destination") s one retried
            ∙ same)
          later)
  attempt_rows-Delivered start false ((index, row) ∷ rows) s found same run =
      let (_, _, run1) = bind-ok (ensure (ltb index (2 ^ 32)) row_overflow) _ run in
      elim (deliver_row_locked-Tried send subscriptions now_ms event b index row s) [
        | inl now ↦
            let (rest, later, run2) =
              bind-ok (attempt_rows send subscriptions now_ms event b false rows s) _
                (rw now at run1) in
            let e : found.0 ≡ add_success index (record { row_index = index; row = row }) rest.0 =
              ground (arith, run2) in
            rw e (
              Delivered-ledger start s row same (deliver_row_locked-delivered index row _ s now),
              attempt_rows-Delivered start false rows s rest same later,
            )
        | inr (inl past) ↦
            let (rest, later, run2) =
              bind-ok (attempt_rows send subscriptions now_ms event b false rows s) _
                (rw past at run1) in
            let e : found.0 ≡ add_skipped index rest.0 = ground (arith, run2) in
            rw e (attempt_rows-Delivered start false rows s rest same later)
        | inr (inr (error, attempt)) ↦ elim (Bool-cases (is_permanent error)) [
          | inl for_good ↦
              let run2 = rw (attempt, for_good) at run1 in
              let (dead, buried, run3) =
                bind-ok (dead_letter now_ms b.id index row.destination_id 1 b.created_at_ms error s)
                  _ run2 in
              let (rest, later, run4) =
                bind-ok (attempt_rows send subscriptions now_ms event b false rows dead.1) _ run3 in
              let e : found.0 ≡ add_dead_letter index dead.0 rest.0 = ground (arith, run4) in
              rw e (
                attempt_rows-Delivered start false rows dead.1 rest
                  (dead_letter-ledger now_ms b.id index row.destination_id 1 b.created_at_ms error s
                      dead buried
                    ∙ same)
                  later)
          | inr for_now ↦
              let run2 = rw (attempt, for_now) at run1 in
              let (one, retried, run3) =
                bind-ok
                  (failed_retry send subscriptions now_ms event b index row (message_of error) s) _
                  run2 in
              let (rest, later, run4) =
                bind-ok (attempt_rows send subscriptions now_ms event b true rows one.1) _ run3 in
              let e : found.0 ≡ add_retry index one.0 rest.0 = ground (arith, run4) in
              rw e (
                attempt_rows-Delivered start true rows one.1 rest
                  (retry_item-ledger now_ms b.id index row 1
                      (saturating_add now_ms (retry_delay_ms 0)) (message_of error) s one retried
                    ∙ same)
                  later)
        ]
      ]

  -- When a lane is committed, every delivery in its outcome is of a row for which all of this held
  -- when the lane began: neither the event nor the batch was of a retired category, the ledger held no
  -- delivery of this revision to the row's destination, the subscription under the row's id was active
  -- and of the row's generation, and the notification of the row's target under its rule was sent.
  pub process_destination_lane-Delivered :
      (c : Codec) (rows : List (ℕ × DeliveryRow)) (s : Store) (found : LaneOutcome × Store)
      → process_destination_lane send subscriptions now_ms event b c rows s ≡ ok found
      → All (λ (success : DeliverySuccess). Delivered s success.row) found.0.successes
  unfolding process_destination_lane
  process_destination_lane-Delivered c [] s found run =
      let e : found.0 ≡ no_outcome = ground (arith, run) in rw e tt
  process_destination_lane-Delivered c ((index, row) ∷ rows) s found run =
      let is_head = delivery_is_destination_head s row.destination_id b.id index in
      let blocked = if is_head then false else true in
      let (_, _, run1) = bind-ok (ensure (ltb index (2 ^ 32)) row_overflow) _ run in
      let (o, attempted, run2) =
        bind-ok (attempt_rows send subscriptions now_ms event b blocked ((index, row) ∷ rows) s) _
          run1 in
      let (s', _, run3) = bind-ok (commit_delivery_lane_outcome c now_ms b.id o.0 o.1) _ run2 in
      let e : found.0 ≡ o.0 = ground (arith, run3) in
      rw e (attempt_rows-Delivered s blocked ((index, row) ∷ rows) s o refl attempted)
