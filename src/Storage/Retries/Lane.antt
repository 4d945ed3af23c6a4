-- ===== src/Storage/Retries/Lane.antt =====
-- What the commit of a lane's outcome does to the retries.
use mathlib.Core.Path.{subst}
use disaster_alert.Prelude.{
  ℕ, ◌≡◌, ◌≢◌, ◌⊎◌, Bool, true, ◌&&◌, none, some, Bool-cases, inl, inr, arith, ap, sym, ◌∙◌, ◌==◌,
  List, [], ◌∷◌, All, get_elem?, ltb, length,
}
use disaster_alert.Prelude.Int.{ℤ}
use disaster_alert.Delivery.{DeliveryBatch, DeliveryRow, RetryItem}
use disaster_alert.Storage.{Store, Codec, Error, ok, ensure, or_error, encode, delivery_batch_key}
use disaster_alert.Storage.Keyspace.{get, insert, remove, nat_key, pair_key, get-insert, get-remove}
use disaster_alert.Storage.Incidents.Records.{bind-ok, ensure-ok}
use disaster_alert.Storage.Lanes.{
  retry_key, insert_retry_indexes, commit_retries, Written, is_open, finish_batch,
}
use disaster_alert.Storage.Lanes.Outcome.{SameRetries}
use disaster_alert.Storage.Lanes.Progress.{or_error-ok}
use disaster_alert.Storage.Lanes.Pending.{is_done, finish_batch-open, finish_batch-done}
use disaster_alert.Storage.Retries.{delivery_batch}
use disaster_alert.Storage.Retries.Lookups.{RetryKey}
use disaster_alert.Storage.Retries.Indexed.{RetriesIndexed, insert_retry_indexes-Indexed, ok-inj}

-- The ids of the given retries are those of no stored retry and of no other given one.
unfoldable pub NewIds : Store → List RetryItem → Type 0
NewIds w [] = Unit
NewIds w (retry ∷ retries) =
    ((key : RetryKey) (r : RetryItem) → get w.retries key ≡ some r → r.id ≢ retry.id)
    × All (λ (other : RetryItem). other.id ≢ retry.id) retries
    × NewIds w retries

pub NewIds-of_eq :
    (w w' : Store) (retries : List RetryItem)
    → w'.retries ≡ w.retries
    → NewIds w retries
    → NewIds w' retries
unfolding NewIds
NewIds-of_eq w w' [] e new = tt
NewIds-of_eq w w' (retry ∷ retries) e new = (
  λ key r h. new.0 key r (ap (λ m. get m key) (sym e) ∙ h),
  new.1,
  NewIds-of_eq w w' retries e new.2,
)

insert_retry_indexes-retries :
    (c : Codec) (retry : RetryItem) (w w' : Store)
    → insert_retry_indexes c retry w ≡ ok w'
    → w'.retries ≡ insert w.retries (retry_key retry) retry
unfolding insert_retry_indexes
insert_retry_indexes-retries c retry w w' run =
    let (_, _, e) = bind-ok (encode (c.retry retry)) _ run in
    sym (ap (λ (t : Store). t.retries) (ok-inj e))

inserted-cases :
    (c : Codec) (retry : RetryItem) (w w' : Store) (key : RetryKey) (r : RetryItem)
    → insert_retry_indexes c retry w ≡ ok w'
    → get w'.retries key ≡ some r
    → (retry ≡ r) ⊎ (get w.retries key ≡ some r)
inserted-cases c retry w w' key r run h =
    let there : get (insert w.retries (retry_key retry) retry) key ≡ some r =
      ap (λ m. get m key) (sym (insert_retry_indexes-retries c retry w w' run)) ∙ h in
    let put = get-insert w.retries (retry_key retry) key retry in
    elim (Bool-cases (pair_key.beq (retry_key retry) key)) [
      | inl new ↦ inl (ground (arith, there, put, new))
      | inr old ↦ inr (ground (arith, there, put, old))
    ]

NewIds-insert :
    (c : Codec) (retry : RetryItem) (w w' : Store) (retries : List RetryItem)
    → insert_retry_indexes c retry w ≡ ok w'
    → All (λ (other : RetryItem). other.id ≢ retry.id) retries
    → NewIds w retries
    → NewIds w' retries
unfolding NewIds
NewIds-insert c retry w w' [] run apart new = tt
NewIds-insert c retry w w' (next ∷ retries) run apart new = (
  λ key r h e. elim (inserted-cases c retry w w' key r run h) [
    | inl same ↦ apart.0 (sym e ∙ sym (ap (λ (q : RetryItem). q.id) same))
    | inr old ↦ new.0 key r old e
  ],
  new.1,
  NewIds-insert c retry w w' retries run apart.1 new.2,
)

module _ (c : Codec) (now_ms : ℤ) (b : DeliveryBatch) (completed : List ℕ) (id : ℕ) where
  -- The row of a retry of the batch.
  abbrev pub HasRow : RetryItem → Type 0
  HasRow retry =
      (retry.batch_id ≡ id)
      × (row : DeliveryRow) × (get_elem? b.rows retry.row_index ≡ some row)
      × (row.destination_id ≡ retry.destination_id)

  step-row :
      (retry : RetryItem) (row : DeliveryRow) (terminal : List ℕ)
      → get_elem? b.rows retry.row_index ≡ some row
      → (retry.batch_id == id
          && retry.destination_id == row.destination_id
          && is_open completed terminal retry.row_index)
        ≡ true
      → HasRow retry
  step-row retry row terminal found h = (ground arith, row, found, ground arith)

  pub commit_retries-retries :
      (P : RetryItem → Type 0) (retries : List RetryItem) (terminal : List ℕ) (w : Store)
      (w' : Written)
      → ((retry : RetryItem) → HasRow retry → ltb 0 (length retries) ≡ true → P retry)
      → RetriesIndexed w
      → NewIds w retries
      → ((key : RetryKey) (r : RetryItem) → get w.retries key ≡ some r → P r)
      → commit_retries c now_ms b completed id retries (terminal, w) ≡ ok w'
      → RetriesIndexed w'.1
        × ((key : RetryKey) (r : RetryItem) → get w'.1.retries key ≡ some r → P r)
  unfolding commit_retries NewIds
  commit_retries-retries P [] terminal w w' each inv new old run =
      let e = ok-inj run in
      subst
        (λ (t : Written).
          RetriesIndexed t.1
          × ((key : RetryKey) (r : RetryItem) → get t.1.retries key ≡ some r → P r))
        e (inv, old)
  commit_retries-retries P (retry ∷ retries) terminal w w' each inv new old run =
      let (row, found, run1) =
        bind-ok (or_error (get_elem? b.rows retry.row_index) Error.row_invalid) _ run in
      let (_, h, run2) =
        bind-ok
          (ensure
            (retry.batch_id == id
              && retry.destination_id == row.destination_id
              && is_open completed terminal retry.row_index)
            Error.retry_mismatch)
          _ run1 in
      let (w1, stored, run3) = bind-ok (insert_retry_indexes c retry w) _ run2 in
      let here =
        each retry
          (step-row retry row terminal (or_error-ok _ Error.row_invalid _ found)
            (ensure-ok _ Error.retry_mismatch _ h))
          (ground arith) in
      commit_retries-retries P retries (retry.row_index ∷ terminal) w1 w'
        (λ other k _. each other k (ground arith))
        (insert_retry_indexes-Indexed c retry w w1 inv new.0 stored)
        (NewIds-insert c retry w w1 retries stored new.1 new.2)
        (λ key r k. elim (inserted-cases c retry w w1 key r stored k) [
          | inl same ↦ subst P same here
          | inr before ↦ old key r before
        ])
        run3

pub finish_batch-retries :
    (id : ℕ) (b : DeliveryBatch) (retained : Bool) (progress : List ℕ) (w : Store)
    → SameRetries w (finish_batch id b retained progress w)
unfolding finish_batch
finish_batch-retries id b retained progress w = ground arith

pub finish_batch-others :
    (id : ℕ) (b : DeliveryBatch) (retained : Bool) (progress : List ℕ) (w : Store) (other : ℕ)
    → id ≢ other
    → delivery_batch (finish_batch id b retained progress w) other ≡ delivery_batch w other
unfolding finish_batch delivery_batch delivery_batch_key
finish_batch-others id b retained progress w other h =
    let m = w.delivery_batches in
    let m0 = remove m (0, id) in
    elim (Bool-cases (length progress == length b.rows)) [
      | inl full ↦ elim (Bool-cases retained) [
        | inl kept ↦ ground (
          arith,
          full,
          kept,
          get-insert m0 (1, id) (0, other) b,
          get-insert m0 (1, id) (1, other) b,
          get-remove m (0, id) (0, other),
          get-remove m (0, id) (1, other),
        )
        | inr dropped ↦
            ground (
              arith,
              full,
              dropped,
              get-remove m (0, id) (0, other),
              get-remove m (0, id) (1, other),
            )
      ]
      | inr more ↦ ground (arith, more)
    ]

pub delivery_batch-pending :
    (s : Store) (id : ℕ) (b : DeliveryBatch)
    → get s.delivery_batches (delivery_batch_key 0 id) ≡ some b
    → delivery_batch s id ≡ some b
unfolding delivery_batch
delivery_batch-pending s id b h = ground arith

delivery_batch-retained :
    (s : Store) (id : ℕ) (b : DeliveryBatch)
    → get s.delivery_batches (delivery_batch_key 0 id) ≡ none
    → get s.delivery_batches (delivery_batch_key 1 id) ≡ some b
    → delivery_batch s id ≡ some b
unfolding delivery_batch
delivery_batch-retained s id b h k = ground arith

pub finish_batch-own :
    (id : ℕ) (b : DeliveryBatch) (progress : List ℕ) (w : Store)
    → get w.delivery_batches (delivery_batch_key 0 id) ≡ some b
    → delivery_batch (finish_batch id b true progress w) id ≡ some b
finish_batch-own id b progress w h = elim (Bool-cases (is_done progress b)) [
  | inl full ↦
      let (gone, kept, _) = finish_batch-done id b true progress w full in
      delivery_batch-retained (finish_batch id b true progress w) id b gone kept
  | inr more ↦
      let (same, _) = finish_batch-open id b true progress w more in
      delivery_batch-pending (finish_batch id b true progress w) id b
        (ap (λ m. get m (delivery_batch_key 0 id)) same ∙ h)
]
