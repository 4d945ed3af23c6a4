-- ===== src/Storage/Lanes/Outcome.antt =====
-- What a committed outcome of a lane says of each row.
use disaster_alert.Prelude.{
  ℕ, ◌+◌, ◌≤◌, ◌≡◌, refl, true, ◌&&◌, List, [], ◌∷◌, ◌==◌, map, arith, get_elem?,
}
use disaster_alert.Prelude.Int.{ℤ}
use disaster_alert.Delivery.{DeliveryBatch, DeliverySuccess, RetryItem, DeadLetterItem, row_eq}
use disaster_alert.Storage.{Store, Codec, Error, ok, ensure, or_error, encode}
use disaster_alert.Storage.Keyspace.{nat_key, pair_key}
use disaster_alert.Storage.Incidents.Records.{bind-ok, ensure-ok}
use disaster_alert.Storage.Lanes.{
  contains_row, is_open, Written, skip_rows, commit_successes, commit_dead_letters, commit_retries,
  insert_ledger, stored_delivery, insert_retry_indexes,
}
use disaster_alert.Storage.Lanes.Rows.{times, contains_row-times}

-- The terminal rows `after` are those `before` and the given ones, each a completed row met once.
unfoldable pub Claims : List ℕ → List ℕ → List ℕ → List ℕ → Type 0
unfolding contains_row
Claims completed rows before after =
    (i : ℕ)
    → (times i after ≡ times i rows + times i before)
      × (times i before ≤ 1 → times i after ≤ 1)
      × (1 ≤ times i rows → contains_row completed i ≡ true)

module _ (completed : List ℕ) where
  Claims-nil : (before : List ℕ) → Claims completed [] before before
  unfolding Claims
  Claims-nil before i = (omega arith, λ h. h, λ h. absurd (omega arith))

  Claims-cons :
      (row : ℕ) (rows before after : List ℕ)
      → is_open completed before row ≡ true
      → Claims completed rows (row ∷ before) after
      → Claims completed (row ∷ rows) before after
  unfolding Claims is_open
  Claims-cons row rows before after o h i = (
    ground (arith, h i),
    λ k. ground (arith, h i, contains_row-times before row),
    λ k. ground (arith, h i),
  )

-- The parts of the store that only the last steps write.
abbrev pub SameLanes : Store → Store → Type 0
SameLanes w w' =
    (w'.delivery_batches ≡ w.delivery_batches)
    × (w'.delivery_progress ≡ w.delivery_progress)
    × (w'.delivery_by_destination ≡ w.delivery_by_destination)

-- The indexes of retries.
abbrev pub SameRetries : Store → Store → Type 0
SameRetries w w' =
    (w'.retries ≡ w.retries)
    × (w'.retries_by_destination ≡ w.retries_by_destination)
    × (w'.retries_by_batch ≡ w.retries_by_batch)

pub insert_ledger-Same :
    (c : Codec) (now_ms : ℤ) (b : DeliveryBatch) (success : DeliverySuccess) (w w' : Store)
    → insert_ledger c now_ms b success.row w ≡ ok w'
    → SameLanes w w' × SameRetries w w'
unfolding insert_ledger
insert_ledger-Same c now_ms b success w w' run =
    let (_, _, e) =
      bind-ok (encode (c.stored_delivery (stored_delivery now_ms b success.row))) _ run in
    ground (arith, e)

pub insert_retry_indexes-SameLanes :
    (c : Codec) (retry : RetryItem) (w w' : Store)
    → insert_retry_indexes c retry w ≡ ok w'
    → SameLanes w w'
unfolding insert_retry_indexes
insert_retry_indexes-SameLanes c retry w w' run =
    let (_, _, e) = bind-ok (encode (c.retry retry)) _ run in ground (arith, e)

pub skip_rows_lem :
    (completed rows terminal : List ℕ) (w : Store) (w' : Written)
    → skip_rows completed rows (terminal, w) ≡ ok w'
    → Claims completed rows terminal w'.0 × (w'.1 ≡ w)
unfolding skip_rows
skip_rows_lem completed [] terminal w w' run =
    let e : w' ≡ (terminal, w) = ground (arith, run) in rw e (Claims-nil completed terminal, refl)
skip_rows_lem completed (row ∷ rows) terminal w w' run =
    let (_, h, run1) =
      bind-ok (ensure (is_open completed terminal row) Error.skipped_mismatch) _ run in
    let (claims, same) = skip_rows_lem completed rows (row ∷ terminal) w w' run1 in
    (Claims-cons completed row rows terminal w'.0 (ensure-ok _ _ _ h) claims, same)

module _ (c : Codec) (now_ms : ℤ) (b : DeliveryBatch) (completed : List ℕ) where
  success_rows : List DeliverySuccess → List ℕ
  success_rows successes = map (λ success. success.row_index) successes

  pub commit_successes_lem :
      (successes : List DeliverySuccess) (terminal : List ℕ) (w : Store) (w' : Written)
      → commit_successes c now_ms b completed successes (terminal, w) ≡ ok w'
      → Claims completed (map (λ success. success.row_index) successes) terminal w'.0
        × SameLanes w w'.1
        × SameRetries w w'.1
  unfolding commit_successes
  commit_successes_lem [] terminal w w' run =
      let e : w' ≡ (terminal, w) = ground (arith, run) in
      rw e (Claims-nil completed terminal, (refl, refl, refl), (refl, refl, refl))
  commit_successes_lem (success ∷ successes) terminal w w' run =
      let (row, _, run1) =
        bind-ok (or_error (get_elem? b.rows success.row_index) Error.row_invalid) _ run in
      let (_, h, run2) =
        bind-ok
          (ensure (is_open completed terminal success.row_index && row_eq row success.row)
            Error.success_mismatch)
          _ run1 in
      let (w1, stored, run3) = bind-ok (insert_ledger c now_ms b success.row w) _ run2 in
      let (claims, lanes, retries) =
        commit_successes_lem successes (success.row_index ∷ terminal) w1 w' run3 in
      let o : is_open completed terminal success.row_index ≡ true =
        ground (arith, ensure-ok _ _ _ h) in
      let (lanes1, retries1) = insert_ledger-Same c now_ms b success w w1 stored in
      (
        Claims-cons completed success.row_index _ terminal w'.0 o claims,
        ground (arith, lanes, lanes1),
        ground (arith, retries, retries1),
      )

  pub commit_dead_letters_lem :
      (id : ℕ) (dead_letters : List DeadLetterItem) (terminal : List ℕ) (w : Store) (w' : Written)
      → commit_dead_letters c now_ms b completed id dead_letters (terminal, w) ≡ ok w'
      → Claims completed (map (λ dead_letter. dead_letter.row_index) dead_letters) terminal w'.0
        × SameLanes w w'.1
        × SameRetries w w'.1
  unfolding commit_dead_letters
  commit_dead_letters_lem id [] terminal w w' run =
      let e : w' ≡ (terminal, w) = ground (arith, run) in
      rw e (Claims-nil completed terminal, (refl, refl, refl), (refl, refl, refl))
  commit_dead_letters_lem id (dead_letter ∷ dead_letters) terminal w w' run =
      let (row, _, run1) =
        bind-ok (or_error (get_elem? b.rows dead_letter.row_index) Error.row_invalid) _ run in
      let (_, h, run2) =
        bind-ok
          (ensure
            (dead_letter.batch_id == id
              && dead_letter.destination_id == row.destination_id
              && is_open completed terminal dead_letter.row_index)
            Error.dead_letter_mismatch)
          _ run1 in
      let (_, _, run3) = bind-ok (encode (c.dead_letter dead_letter)) _ run2 in
      let (claims, lanes, retries) =
        commit_dead_letters_lem id dead_letters (dead_letter.row_index ∷ terminal) _ w' run3 in
      let o : is_open completed terminal dead_letter.row_index ≡ true =
        ground (arith, ensure-ok _ _ _ h) in
      (Claims-cons completed dead_letter.row_index _ terminal w'.0 o claims, lanes, retries)

  pub commit_retries_lem :
      (id : ℕ) (retries : List RetryItem) (terminal : List ℕ) (w : Store) (w' : Written)
      → commit_retries c now_ms b completed id retries (terminal, w) ≡ ok w'
      → Claims completed (map (λ retry. retry.row_index) retries) terminal w'.0 × SameLanes w w'.1
  unfolding commit_retries
  commit_retries_lem id [] terminal w w' run =
      let e : w' ≡ (terminal, w) = ground (arith, run) in
      rw e (Claims-nil completed terminal, (refl, refl, refl))
  commit_retries_lem id (retry ∷ retries) terminal w w' run =
      let (row, _, run1) =
        bind-ok (or_error (get_elem? b.rows retry.row_index) Error.row_invalid) _ run in
      let (_, h, run2) =
        bind-ok
          (ensure
            (retry.batch_id == id
              && retry.destination_id == row.destination_id
              && is_open completed terminal retry.row_index)
            Error.retry_mismatch)
          _ run1 in
      let (w1, stored, run3) = bind-ok (insert_retry_indexes c retry w) _ run2 in
      let (claims, lanes) = commit_retries_lem id retries (retry.row_index ∷ terminal) w1 w' run3 in
      let o : is_open completed terminal retry.row_index ≡ true =
        ground (arith, ensure-ok _ _ _ h) in
      (
        Claims-cons completed retry.row_index _ terminal w'.0 o claims,
        ground (arith, lanes, insert_retry_indexes-SameLanes c retry w w1 stored),
      )
