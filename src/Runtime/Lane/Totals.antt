-- ===== src/Runtime/Lane/Totals.antt =====
-- When the steps of a lane's commit accept the rows that they are given.
use disaster_alert.Prelude.{
  ℕ, ◌+◌, ◌≤◌, ◌≡◌, refl, true, false, none, some, List, [], ◌∷◌, ==_iff, if◌then◌else◌, length,
  all, All, map, get_elem?, arith,
}
use disaster_alert.Prelude.Int.{ℤ}
use disaster_alert.Delivery.{
  DeliveryBatch, DeliveryRow, RetryItem, DeliverySuccess, DeadLetterItem, row_eq, level_eq_iff,
}
use disaster_alert.Storage.{
  Store, StoredDelivery, Codec, Result, ok, ◌>>=◌, encode, max_record_bytes,
  delivery_destination_key,
}
use disaster_alert.Storage.Keyspace.{insert, remove, nat_key, pair_key}
use disaster_alert.Storage.Lanes.{
  contains_row, row_set, same_rows, is_open, Written, skip_rows, commit_successes,
  commit_dead_letters, commit_retries, insert_ledger, insert_retry_indexes, commit_rows, check_lane,
  stored_delivery, dead_letter_key,
}
use disaster_alert.Storage.Lanes.Rows.{times, contains_row-times}

-- Records of numbers fit, and so do those with an error of at most 1024 characters beside them.
pub record IsRoomy (c : Codec) : Type 0 where
  pub delivery_fits : (x : StoredDelivery) → c.stored_delivery x ≤ max_record_bytes
  pub retry_fits : (x : RetryItem) → length x.last_error ≤ 1024 → c.retry x ≤ max_record_bytes
  pub dead_letter_fits :
      (x : DeadLetterItem) → length x.last_error ≤ 1024 → c.dead_letter x ≤ max_record_bytes

pub row_set-once : (rows : List ℕ) → ((i : ℕ) → times i rows ≤ 1) → row_set rows ≡ rows
unfolding row_set
row_set-once [] once = refl
row_set-once (row ∷ rows) once =
    let ih = row_set-once rows (λ i. ground (arith, once i)) in
    ground (arith, ih, contains_row-times rows row, once row)

all-contained :
    (xs ys : List ℕ) → ((i : ℕ) → 1 ≤ times i xs → 1 ≤ times i ys) → all (contains_row ys) xs ≡ true
unfolding all
all-contained [] ys within = refl
all-contained (x ∷ xs) ys within = ground (
  arith,
  within x,
  contains_row-times ys x,
  all-contained xs ys (λ i h. within i (ground (arith, h))),
)

pub same_rows-times :
    (xs ys : List ℕ)
    → length xs ≡ length ys
    → ((i : ℕ) → times i xs ≡ times i ys)
    → same_rows xs ys ≡ true
unfolding same_rows
same_rows-times xs ys e same = ground (
  arith,
  e,
  all-contained xs ys (λ i h. omega (arith, same i)),
  all-contained ys xs (λ i h. omega (arith, same i)),
)

-- Rows that are completed and were not met before, each once.
abbrev pub Opens : List ℕ → List ℕ → List ℕ → Type 0
Opens completed rows before =
    (i : ℕ)
    → (times i rows + times i before ≤ 1) × (1 ≤ times i rows → contains_row completed i ≡ true)

-- The rows met afterwards.
abbrev pub Grown : List ℕ → List ℕ → List ℕ → Type 0
Grown rows before after =
    (length after ≡ length rows + length before)
    × ((i : ℕ) → times i after ≡ times i rows + times i before)

module _ (completed : List ℕ) (row : ℕ) (rows before : List ℕ)
    (opens : Opens completed (row ∷ rows) before) where
  Opens-head : is_open completed before row ≡ true
  unfolding is_open
  Opens-head = ground (arith, opens row, contains_row-times before row)

  Opens-tail : Opens completed rows (row ∷ before)
  Opens-tail i = (ground (arith, opens i), λ h. ground (arith, opens i, h))

Grown-cons :
    (row : ℕ) (rows before after : List ℕ)
    → Grown rows (row ∷ before) after
    → Grown (row ∷ rows) before after
Grown-cons row rows before after g = (omega (arith, g.0), λ i. ground (arith, g.1 i))

pub skip_rows_accepts :
    (completed rows before : List ℕ) (w : Store)
    → Opens completed rows before
    → (w' : Written) × (skip_rows completed rows (before, w) ≡ ok w') × Grown rows before w'.0
unfolding skip_rows
skip_rows_accepts completed [] before w opens = ((before, w), refl, (omega arith, λ i. omega arith))
skip_rows_accepts completed (row ∷ rows) before w opens =
    let (w', run, grown) =
      skip_rows_accepts completed rows (row ∷ before) w
        (Opens-tail completed row rows before opens) in
    (w', rw (Opens-head completed row rows before opens) run, Grown-cons row rows before w'.0 grown)

row_eq_refl : (row : DeliveryRow) → row_eq row row ≡ true
unfolding row_eq
row_eq_refl row = ground (arith, level_eq_iff row.interruption_level row.interruption_level)

encode_accepts : (n : ℕ) → n ≤ max_record_bytes → encode n ≡ ok tt
unfolding encode
encode_accepts n h = ground arith

pass :
    {A : Type 0} (step : Result (Unit {0})) (a : A)
    → step ≡ ok tt
    → (x : A) × ((step >>= λ _. ok a) ≡ ok x)
pass step a e = (a, rw e refl)

insert_ledger_accepts :
    (c : Codec) (now_ms : ℤ) (b : DeliveryBatch) (row : DeliveryRow) (w : Store)
    → IsRoomy c
    → (w' : Store) × (insert_ledger c now_ms b row w ≡ ok w')
unfolding insert_ledger
insert_ledger_accepts c now_ms b row w roomy =
    pass (encode (c.stored_delivery (stored_delivery now_ms b row))) _
      (encode_accepts _ (roomy.delivery_fits (stored_delivery now_ms b row)))

insert_retry_indexes_accepts :
    (c : Codec) (retry : RetryItem) (w : Store)
    → IsRoomy c
    → length retry.last_error ≤ 1024
    → (w' : Store) × (insert_retry_indexes c retry w ≡ ok w')
unfolding insert_retry_indexes
insert_retry_indexes_accepts c retry w roomy short =
    pass (encode (c.retry retry)) _ (encode_accepts _ (roomy.retry_fits retry short))

-- A retry or a dead letter is about a row of the batch.
abbrev pub Place : DeliveryBatch → ℕ → ℕ → ℕ → ℕ → Type 0
Place b id batch_id row_index destination_id =
    (batch_id ≡ id)
    × (row : DeliveryRow) × (get_elem? b.rows row_index ≡ some row)
    × (destination_id ≡ row.destination_id)

module _ (c : Codec) (roomy : IsRoomy c) (now_ms : ℤ) (b : DeliveryBatch) (completed : List ℕ) where
  pub commit_successes_accepts :
      (successes : List DeliverySuccess) (before : List ℕ) (w : Store)
      → Opens completed (map (λ success. success.row_index) successes) before
      → All
          (λ (success : DeliverySuccess). get_elem? b.rows success.row_index ≡ some success.row)
          successes
      → (w' : Written) × (commit_successes c now_ms b completed successes (before, w) ≡ ok w')
        × Grown (map (λ success. success.row_index) successes) before w'.0
  unfolding commit_successes
  commit_successes_accepts [] before w opens places =
      ((before, w), refl, (omega arith, λ i. omega arith))
  commit_successes_accepts (success ∷ successes) before w opens places =
      let rows = map (λ (s : DeliverySuccess). s.row_index) successes in
      let (w1, stored) = insert_ledger_accepts c now_ms b success.row w roomy in
      let (w', run, grown) =
        commit_successes_accepts successes (success.row_index ∷ before) w1
          (Opens-tail completed success.row_index rows before opens) places.1 in
      (
        w',
        rw
            (
              places.0,
              Opens-head completed success.row_index rows before opens,
              row_eq_refl success.row,
              stored,
            )
            run,
        Grown-cons success.row_index rows before w'.0 grown,
      )

  pub commit_dead_letters_accepts :
      (id : ℕ) (dead_letters : List DeadLetterItem) (before : List ℕ) (w : Store)
      → Opens completed (map (λ dead. dead.row_index) dead_letters) before
      → All
          (λ (dead : DeadLetterItem). Place b id dead.batch_id dead.row_index dead.destination_id)
          dead_letters
      → All (λ (dead : DeadLetterItem). length dead.last_error ≤ 1024) dead_letters
      → (w' : Written) × (commit_dead_letters c now_ms b completed id dead_letters (before, w)
          ≡ ok w')
        × Grown (map (λ dead. dead.row_index) dead_letters) before w'.0
  unfolding commit_dead_letters
  commit_dead_letters_accepts id [] before w opens places short =
      ((before, w), refl, (omega arith, λ i. omega arith))
  commit_dead_letters_accepts id (dead ∷ dead_letters) before w opens places short =
      let rows = map (λ (d : DeadLetterItem). d.row_index) dead_letters in
      let (same_id, row, place, destination) = places.0 in
      let (w', run, grown) =
        commit_dead_letters_accepts id dead_letters (dead.row_index ∷ before)
          (record w { dead_letters = insert w.dead_letters (dead_letter_key dead) dead })
          (Opens-tail completed dead.row_index rows before opens) places.1 short.1 in
      (
        w',
        rw
            (
              place,
              (==_iff dead.batch_id id).1 same_id,
              (==_iff dead.destination_id row.destination_id).1 destination,
              Opens-head completed dead.row_index rows before opens,
              encode_accepts _ (roomy.dead_letter_fits dead short.0),
            )
            run,
        Grown-cons dead.row_index rows before w'.0 grown,
      )

  pub commit_retries_accepts :
      (id : ℕ) (retries : List RetryItem) (before : List ℕ) (w : Store)
      → Opens completed (map (λ retry. retry.row_index) retries) before
      → All
          (λ (retry : RetryItem). Place b id retry.batch_id retry.row_index retry.destination_id)
          retries
      → All (λ (retry : RetryItem). length retry.last_error ≤ 1024) retries
      → (w' : Written) × (commit_retries c now_ms b completed id retries (before, w) ≡ ok w')
        × Grown (map (λ retry. retry.row_index) retries) before w'.0
  unfolding commit_retries
  commit_retries_accepts id [] before w opens places short =
      ((before, w), refl, (omega arith, λ i. omega arith))
  commit_retries_accepts id (retry ∷ retries) before w opens places short =
      let rows = map (λ (r : RetryItem). r.row_index) retries in
      let (same_id, row, place, destination) = places.0 in
      let (w1, stored) = insert_retry_indexes_accepts c retry w roomy short.0 in
      let (w', run, grown) =
        commit_retries_accepts id retries (retry.row_index ∷ before) w1
          (Opens-tail completed retry.row_index rows before opens) places.1 short.1 in
      (
        w',
        rw
            (
              place,
              (==_iff retry.batch_id id).1 same_id,
              (==_iff retry.destination_id row.destination_id).1 destination,
              Opens-head completed retry.row_index rows before opens,
              stored,
            )
            run,
        Grown-cons retry.row_index rows before w'.0 grown,
      )

-- The given rows are rows of the batch for one destination.
abbrev pub LaneRows : DeliveryBatch → ℕ → List ℕ → Type 0
LaneRows b destination = All (λ (i : ℕ).
    (row : DeliveryRow) × (get_elem? b.rows i ≡ some row) × (row.destination_id ≡ destination))

pub commit_rows_accepts :
    (id destination : ℕ) (b : DeliveryBatch) (retried rows progress : List ℕ) (w : Store)
    → LaneRows b destination rows
    → ((i : ℕ) → 1 ≤ times i rows → times i rows + times i progress ≤ 1)
    → (after : List ℕ × Store) × (commit_rows id b retried rows progress w ≡ ok after)
unfolding commit_rows
commit_rows_accepts id destination b retried [] progress w places once = ((progress, w), refl)
commit_rows_accepts id destination b retried (index ∷ rows) progress w places once =
    let (row, place, _) = places.0 in
    let fresh : contains_row progress index ≡ false =
      ground (arith, once index, contains_row-times progress index) in
    let (after, run) =
      commit_rows_accepts id destination b retried rows (index ∷ progress)
        (if contains_row retried index then w else record w {
          delivery_by_destination =
              remove w.delivery_by_destination
                (delivery_destination_key row.destination_id id index);
        })
        places.1 (λ i h. ground (arith, once i)) in
    (after, rw (place, fresh) run)

pub check_lane_accepts :
    (b : DeliveryBatch) (destination : ℕ) (rows : List ℕ)
    → LaneRows b destination rows
    → (check_lane b (some destination) rows ≡ ok tt) × (check_lane b none rows ≡ ok tt)
unfolding check_lane
check_lane_accepts b destination [] places = (refl, refl)
check_lane_accepts b destination (index ∷ rows) places =
    let (row, place, same) = places.0 in
    let (some_ok, _) = check_lane_accepts b destination rows places.1 in
    (ground (arith, place, same, some_ok), ground (arith, place, same, some_ok))
