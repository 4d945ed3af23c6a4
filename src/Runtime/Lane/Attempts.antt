-- ===== src/Runtime/Lane/Attempts.antt =====
-- The outcome of a lane covers its rows, and only the counters of new ids change on the way.
use disaster_alert.Prelude.{
  ℕ, suc, Option-cases, ◌&&◌, ◌==◌, ◌+◌, ◌^◌, ◌≤◌, ◌<◌, ◌⊎◌, ◌||◌, ◌≡◌, refl, Bool, true, false,
  Option, none, some, List, [], ◌∷◌, length, length-take-le, All, map, get_elem?, Bool-cases, inl,
  inr, arith, sym, ap, ltb, take, if◌then◌else◌,
}
use disaster_alert.Prelude.Int.{ℤ, saturating_add}
use disaster_alert.Text.{Text, text}
use disaster_alert.Event.{DisasterEvent, is_retired}
use disaster_alert.Subscription.{Subscription, alert}
use disaster_alert.Storage.Retries.{delivery_recorded}
use disaster_alert.Delivery.{DeliveryBatch, DeliveryRow, RetryItem, DeadLetterItem}
use disaster_alert.Storage.{Store, ok}
use disaster_alert.Storage.Keyspace.{Map, get, insert, nat_key, text_key, get-insert}
use disaster_alert.Storage.Ingest.{next_id, get_id}
use disaster_alert.Storage.Lanes.{LaneOutcome}
use disaster_alert.Runtime.Lane.{
  Sender, send_to, deliver_to, BarkDeliveryError, is_permanent, message_of, StoredSubscription,
  Attempt, delivered, skipped, failed, attempt_of, sent, not_sent, Sent, deliver_row_locked,
  retry_item, retry_delay_ms, dead_letter, no_outcome, add_skipped, add_success, add_retry,
  add_dead_letter, attempt_rows, blocked_retry, failed_retry,
}
use disaster_alert.Runtime.Lane.Totals.{Place}
use disaster_alert.Runtime.Lane.Acceptance.{IsCovering}

abbrev pub Ids : Type 0
Ids = Map Text ℕ

-- So many new ids are left under both names.
unfoldable pub HasIds : ℕ → Ids → Type 0
HasIds n ids =
    (get_id (get ids (text "retry")) + n < 2 ^ 64)
    × (get_id (get ids (text "dead_letter")) + n < 2 ^ 64)

HasIds-le : (m n : ℕ) (ids : Ids) → m ≤ n → HasIds n ids → HasIds m ids
unfolding HasIds
HasIds-le m n ids le h = (omega (arith, h.0), omega (arith, h.1))

abbrev pub with_ids : Store → Ids → Store
with_ids s ids = record s { next_ids = ids }

abbrev bump : Text → Ids → Ids
bump name ids = insert ids name (get_id (get ids name) + 1)

next_id-bump :
    (name : Text) (s : Store)
    → get_id (get s.next_ids name) + 1 < 2 ^ 64
    → next_id name s ≡ ok (get_id (get s.next_ids name) + 1, with_ids s (bump name s.next_ids))
unfolding next_id
next_id-bump name s h = ground arith

get_id-bump :
    (name other : Text) (ids : Ids)
    → get_id (get (bump name ids) other)
      ≡ (if text_key.beq name other then get_id (get ids name) + 1 else get_id (get ids other))
get_id-bump name other ids = elim (Bool-cases (text_key.beq name other)) [
  | inl same ↦ rw (get-insert ids name other (get_id (get ids name) + 1), same) refl
  | inr differ ↦ rw (get-insert ids name other (get_id (get ids name) + 1), differ) refl
]

get_id-bump-le :
    (name other : Text) (ids : Ids)
    → get_id (get (bump name ids) other) ≤ get_id (get ids other) + 1
get_id-bump-le name other ids = elim (Bool-cases (text_key.beq name other)) [
  | inl same ↦
      rw (sym ((text_key.beq_iff name other).0 same))
        (ground (arith, get_id-bump name name ids, same, (text_key.beq_iff name other)))
  | inr differ ↦ ground (arith, get_id-bump name other ids, differ)
]

HasIds-bump : (name : Text) (n : ℕ) (ids : Ids) → HasIds (suc n) ids → HasIds n (bump name ids)
unfolding HasIds
HasIds-bump name n ids h = (
  omega (arith, h.0, get_id-bump-le name (text "retry") ids),
  omega (arith, h.1, get_id-bump-le name (text "dead_letter") ids),
)

-- The rows of a lane stand in the batch, at numbers of 32 bits.
abbrev pub Entries : DeliveryBatch → List (ℕ × DeliveryRow) → Type 0
Entries b =
    All
      (λ (entry : ℕ × DeliveryRow). (entry.0 < 2 ^ 32) × (get_elem? b.rows entry.0 ≡ some entry.1))

abbrev pub numbers_of : List (ℕ × DeliveryRow) → List ℕ
numbers_of = map (λ entry. entry.0)

module _ (b : DeliveryBatch) (id index : ℕ) (o : LaneOutcome) (covering : IsCovering b id o) where
  add_skipped-IsCovering : IsCovering b id (add_skipped index o)
  add_skipped-IsCovering = record {
    one = λ i. omega (arith, covering.one i);
    size = omega (arith, covering.size);
    delivered_places = covering.delivered_places;
    dead_places = covering.dead_places;
    retry_places = covering.retry_places;
    dead_short = covering.dead_short;
    retry_short = covering.retry_short;
  }

  add_success-IsCovering :
      (row : DeliveryRow)
      → get_elem? b.rows index ≡ some row
      → IsCovering b id (add_success index (record { row_index = index; row = row }) o)
  add_success-IsCovering row place = record {
    one = λ i. omega (arith, covering.one i);
    size = omega (arith, covering.size);
    delivered_places = (place, covering.delivered_places);
    dead_places = covering.dead_places;
    retry_places = covering.retry_places;
    dead_short = covering.dead_short;
    retry_short = covering.retry_short;
  }

  add_retry-IsCovering :
      (retry : RetryItem)
      → retry.row_index ≡ index
      → Place b id retry.batch_id retry.row_index retry.destination_id
      → length retry.last_error ≤ 1024
      → IsCovering b id (add_retry index retry o)
  add_retry-IsCovering retry same place short = record {
    one = λ i. rw same (omega (arith, covering.one i));
    size = omega (arith, covering.size);
    delivered_places = covering.delivered_places;
    dead_places = covering.dead_places;
    retry_places = (place, covering.retry_places);
    dead_short = covering.dead_short;
    retry_short = (short, covering.retry_short);
  }

  add_dead_letter-IsCovering :
      (dead : DeadLetterItem)
      → dead.row_index ≡ index
      → Place b id dead.batch_id dead.row_index dead.destination_id
      → length dead.last_error ≤ 1024
      → IsCovering b id (add_dead_letter index dead o)
  add_dead_letter-IsCovering dead same place short = record {
    one = λ i. rw same (omega (arith, covering.one i));
    size = omega (arith, covering.size);
    delivered_places = covering.delivered_places;
    dead_places = (place, covering.dead_places);
    retry_places = covering.retry_places;
    dead_short = (short, covering.dead_short);
    retry_short = covering.retry_short;
  }

module _ (now_ms : ℤ) (b : DeliveryBatch) (index : ℕ) (row : DeliveryRow) (s : Store)
    (place : get_elem? b.rows index ≡ some row) (ids : HasIds 1 s.next_ids) where
  retry_item_accepts :
      (attempts : ℕ) (due_at_ms : ℤ) (error : Text)
      → (retry : RetryItem) × (retry_item now_ms b.id index row attempts due_at_ms error s
          ≡ ok (retry, with_ids s (bump (text "retry") s.next_ids)))
        × (retry.row_index ≡ index)
        × Place b b.id retry.batch_id retry.row_index retry.destination_id
        × (length retry.last_error ≤ 1024)
  unfolding HasIds retry_item
  retry_item_accepts attempts due_at_ms error = (
    record {
      id = get_id (get s.next_ids (text "retry")) + 1;
      batch_id = b.id;
      row_index = index;
      destination_id = row.destination_id;
      due_at_ms = due_at_ms;
      attempts = attempts;
      created_at_ms = now_ms;
      last_error = take 1024 error;
    },
    rw (next_id-bump (text "retry") s ids.0) refl,
    refl,
    (refl, row, place, refl),
    length-take-le 1024 error,
  )

  dead_letter_accepts :
      (attempts : ℕ) (created_at_ms : ℤ) (error : BarkDeliveryError)
      → (dead : DeadLetterItem) × (dead_letter now_ms b.id index row.destination_id attempts
            created_at_ms error s
          ≡ ok (dead, with_ids s (bump (text "dead_letter") s.next_ids)))
        × (dead.row_index ≡ index)
        × Place b b.id dead.batch_id dead.row_index dead.destination_id
        × (length dead.last_error ≤ 1024)
  unfolding HasIds dead_letter
  dead_letter_accepts attempts created_at_ms error = (
    record {
      id = get_id (get s.next_ids (text "dead_letter")) + 1;
      batch_id = b.id;
      row_index = index;
      destination_id = row.destination_id;
      attempts = attempts;
      created_at_ms = created_at_ms;
      failed_at_ms = now_ms;
      permanent = is_permanent error;
      last_error = take 1024 (message_of error);
    },
    rw (next_id-bump (text "dead_letter") s ids.1) refl,
    refl,
    (refl, row, place, refl),
    length-take-le 1024 (message_of error),
  )

module _ (send : Sender) (subscriptions : Map ℕ StoredSubscription) (now_ms : ℤ)
    (event : DisasterEvent) (b : DeliveryBatch) where
  -- The outcome of a part of the lane, found from a store with the given ids.
  abbrev pub Covers : Bool → List (ℕ × DeliveryRow) → Store → Type 0
  Covers blocked rows s =
      (o : LaneOutcome) × (ids : Ids) × (attempt_rows send subscriptions now_ms event b blocked rows
          s
        ≡ ok (o, with_ids s ids))
      × (o.completed_rows ≡ numbers_of rows)
      × IsCovering b b.id o

  no_outcome-IsCovering : IsCovering b b.id no_outcome
  no_outcome-IsCovering = record {
    one = λ i. omega arith;
    size = omega arith;
    delivered_places = tt;
    dead_places = tt;
    retry_places = tt;
    dead_short = tt;
    retry_short = tt;
  }

  module _ (index : ℕ) (row : DeliveryRow) (rows : List (ℕ × DeliveryRow)) (s : Store)
      (narrow : ltb index (2 ^ 32) ≡ true) (place : get_elem? b.rows index ≡ some row) where
    Covers-blocked :
        HasIds 1 s.next_ids
        → Covers true rows (with_ids s (bump (text "retry") s.next_ids))
        → Covers true ((index, row) ∷ rows) s
    unfolding attempt_rows blocked_retry
    Covers-blocked more rest =
        let (retry, found, same, about, short) =
          retry_item_accepts now_ms b index row s place more 0
            (saturating_add now_ms (retry_delay_ms 0))
            (text "blocked by an earlier delivery for this destination") in
        let (o, ids, run, completed, covering) = rest in
        (
          add_retry index retry o,
          ids,
          rw (narrow, found, run) refl,
          ap (λ is. index ∷ is) completed,
          add_retry-IsCovering b b.id index o covering retry same about short,
        )

    Covers-delivered :
        deliver_row_locked send event b index row subscriptions s
          ≡ delivered (record { row_index = index; row = row })
        → Covers false rows s
        → Covers false ((index, row) ∷ rows) s
    unfolding attempt_rows
    Covers-delivered attempt rest =
        let (o, ids, run, completed, covering) = rest in
        (
          add_success index (record { row_index = index; row = row }) o,
          ids,
          rw (narrow, attempt, run) refl,
          ap (λ is. index ∷ is) completed,
          add_success-IsCovering b b.id index o covering row place,
        )

    Covers-skipped :
        deliver_row_locked send event b index row subscriptions s ≡ skipped
        → Covers false rows s
        → Covers false ((index, row) ∷ rows) s
    unfolding attempt_rows
    Covers-skipped attempt rest =
        let (o, ids, run, completed, covering) = rest in
        (
          add_skipped index o,
          ids,
          rw (narrow, attempt, run) refl,
          ap (λ is. index ∷ is) completed,
          add_skipped-IsCovering b b.id index o covering,
        )

    Covers-failed :
        (error : BarkDeliveryError)
        → HasIds 1 s.next_ids
        → deliver_row_locked send event b index row subscriptions s ≡ failed error
        → is_permanent error ≡ false
        → Covers true rows (with_ids s (bump (text "retry") s.next_ids))
        → Covers false ((index, row) ∷ rows) s
    unfolding attempt_rows failed_retry
    Covers-failed error more attempt for_now rest =
        let (retry, found, same, about, short) =
          retry_item_accepts now_ms b index row s place more 1
            (saturating_add now_ms (retry_delay_ms 0)) (message_of error) in
        let (o, ids, run, completed, covering) = rest in
        (
          add_retry index retry o,
          ids,
          rw (narrow, attempt, for_now, found, run) refl,
          ap (λ is. index ∷ is) completed,
          add_retry-IsCovering b b.id index o covering retry same about short,
        )

    Covers-dead :
        (error : BarkDeliveryError)
        → HasIds 1 s.next_ids
        → deliver_row_locked send event b index row subscriptions s ≡ failed error
        → is_permanent error ≡ true
        → Covers false rows (with_ids s (bump (text "dead_letter") s.next_ids))
        → Covers false ((index, row) ∷ rows) s
    unfolding attempt_rows
    Covers-dead error more attempt for_good rest =
        let (dead, found, same, about, short) =
          dead_letter_accepts now_ms b index row s place more 1 b.created_at_ms error in
        let (o, ids, run, completed, covering) = rest in
        (
          add_dead_letter index dead o,
          ids,
          rw (narrow, attempt, found, run, for_good) refl,
          ap (λ is. index ∷ is) completed,
          add_dead_letter-IsCovering b b.id index o covering dead same about short,
        )

  -- The three results of a row.
  abbrev Tried : ℕ → DeliveryRow → Attempt → Type 0
  Tried index row attempt =
      (attempt ≡ delivered (record { row_index = index; row = row }))
      ⊎ ((attempt ≡ skipped) ⊎ ((error : BarkDeliveryError) × (attempt ≡ failed error)))

  attempt_of-Tried :
      (index : ℕ) (row : DeliveryRow) (outcome : Sent)
      → Tried index row (attempt_of index row outcome)
  unfolding attempt_of
  attempt_of-Tried index row sent = inl refl
  attempt_of-Tried index row (not_sent error) = inr (inr (error, refl))

  send_to-Tried :
      (index : ℕ) (row : DeliveryRow) (subscription : Subscription)
      → Tried index row (send_to send event b index row subscription)
  unfolding send_to
  send_to-Tried index row subscription =
      elim (Option-cases (get_elem? subscription.targets row.target_ordinal)) [
        | inl missing ↦ rw (send_to, missing) (inr (inr (_, refl)))
        | inr (target, found) ↦ elim (Option-cases (alert subscription b.category)) [
          | inl no_rule ↦ rw (send_to, found, no_rule) (inr (inr (_, refl)))
          | inr (rule, ruled) ↦
              rw (send_to, found, ruled)
                (attempt_of-Tried index row (send event b row subscription target rule))
        ]
      ]

  deliver_to-Tried :
      (index : ℕ) (row : DeliveryRow) (found : Option StoredSubscription)
      → Tried index row (deliver_to send event b index row found)
  unfolding deliver_to
  deliver_to-Tried index row none = inr (inl refl)
  deliver_to-Tried index row (some stored) =
      elim (Bool-cases (stored.active && stored.generation == row.generation)) [
        | inl current ↦ rw current (send_to-Tried index row stored.subscription)
        | inr stale ↦ rw stale (inr (inl refl))
      ]

  pub deliver_row_locked-Tried :
      (index : ℕ) (row : DeliveryRow) (s : Store)
      → Tried index row (deliver_row_locked send event b index row subscriptions s)
  unfolding deliver_row_locked
  deliver_row_locked-Tried index row s =
      elim (Bool-cases (
        is_retired event.category
        || is_retired b.category
        || delivery_recorded s b.incident_id b.category row.destination_id b.event_revision)) [
          | inl past ↦ rw past (inr (inl refl))
          | inr fresh ↦
              rw fresh (deliver_to-Tried index row (get subscriptions row.subscription_id))
        ]

  -- The loop finds an outcome that covers the rows that it is given.
  pub attempt_rows-Covers :
      (blocked : Bool) (rows : List (ℕ × DeliveryRow)) (s : Store)
      → Entries b rows
      → HasIds (length rows) s.next_ids
      → Covers blocked rows s
  unfolding attempt_rows
  attempt_rows-Covers blocked [] s entries more =
      (no_outcome, s.next_ids, refl, refl, no_outcome-IsCovering)
  attempt_rows-Covers true ((index, row) ∷ rows) s ((narrow, place), entries) more =
      Covers-blocked index row rows s (ground (arith, narrow)) place
        (HasIds-le 1 (suc (length rows)) s.next_ids (omega arith) more)
        (attempt_rows-Covers true rows (with_ids s (bump (text "retry") s.next_ids)) entries
          (HasIds-bump (text "retry") (length rows) s.next_ids more))
  attempt_rows-Covers false ((index, row) ∷ rows) s ((narrow, place), entries) more =
      let low : ltb index (2 ^ 32) ≡ true = ground (arith, narrow) in
      let one = HasIds-le 1 (suc (length rows)) s.next_ids (omega arith) more in
      let same =
        attempt_rows-Covers false rows s entries
          (HasIds-le (length rows) (suc (length rows)) s.next_ids (omega arith) more) in
      let later =
        attempt_rows-Covers true rows (with_ids s (bump (text "retry") s.next_ids)) entries
          (HasIds-bump (text "retry") (length rows) s.next_ids more) in
      let next =
        attempt_rows-Covers false rows (with_ids s (bump (text "dead_letter") s.next_ids)) entries
          (HasIds-bump (text "dead_letter") (length rows) s.next_ids more) in
      elim (deliver_row_locked-Tried index row s) [
        | inl delivered_now ↦ Covers-delivered index row rows s low place delivered_now same
        | inr (inl passed) ↦ Covers-skipped index row rows s low place passed same
        | inr (inr (error, attempt)) ↦ elim (Bool-cases (is_permanent error)) [
          | inl for_good ↦ Covers-dead index row rows s low place error one attempt for_good next
          | inr for_now ↦ Covers-failed index row rows s low place error one attempt for_now later
        ]
      ]
