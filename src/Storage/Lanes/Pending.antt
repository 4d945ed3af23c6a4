-- ===== src/Storage/Lanes/Pending.antt =====
-- The rows that a batch still has to deliver, over the commits of its lanes.
use disaster_alert.Prelude.{
  ℕ, ◌+◌, ◌≤◌, ◌<◌, ◌≡◌, ◌≢◌, ◌⊎◌, refl, Bool, true, false, not, ◌||◌, List, [], ◌∷◌, ◌==◌, ==_iff,
  ltb, if◌then◌else◌, length, Bool-cases, inl, inr, arith, Option, none, some, ap, ◌∙◌, filter,
}
use disaster_alert.Prelude.Int.{ℤ}
use disaster_alert.Delivery.{DeliveryBatch, DeliveryRow}
use disaster_alert.Storage.{Store, Codec, ok, err, delivery_batch_key}
use disaster_alert.Storage.Keyspace.{
  get, remove, nat_key, pair_key, get-insert, get-remove, get-remove_self, get-insert_self,
}
use disaster_alert.Storage.Lanes.{
  contains_row, LaneOutcome, commit_delivery_lane_outcome, progress_of, finish_batch, has_retries,
}
use disaster_alert.Storage.Lanes.Rows.{times, contains_row-times}
use disaster_alert.Storage.Lanes.Progress.{Committed, commit_delivery_lane_outcome-Committed}
use disaster_alert.Storage.{batch_missing}
use disaster_alert.Storage.Retries.{pending_from, pending_delivery_rows}
use disaster_alert.Storage.Lanes.Rows.{times-full}

-- Whether the batch was done.
pub is_done : List ℕ → DeliveryBatch → Bool
is_done progress b = length progress == length b.rows

progress_of-some :
    (s : Store) (id : ℕ) (progress : List ℕ)
    → get s.delivery_progress id ≡ some progress
    → progress_of s id ≡ progress
unfolding progress_of
progress_of-some s id progress h = ground arith

progress_of-none : (s : Store) (id : ℕ) → get s.delivery_progress id ≡ none → progress_of s id ≡ []
unfolding progress_of
progress_of-none s id h = ground arith

pub finish_batch-open :
    (id : ℕ) (b : DeliveryBatch) (retained : Bool) (progress : List ℕ) (w : Store)
    → is_done progress b ≡ false
    → ((finish_batch id b retained progress w).delivery_batches ≡ w.delivery_batches)
      × (progress_of (finish_batch id b retained progress w) id ≡ progress)
unfolding finish_batch is_done
finish_batch-open id b retained progress w h =
    rw h (refl, progress_of-some _ id progress (get-insert_self w.delivery_progress id progress))

pub finish_batch-done :
    (id : ℕ) (b : DeliveryBatch) (retained : Bool) (progress : List ℕ) (w : Store)
    → is_done progress b ≡ true
    → (get (finish_batch id b retained progress w).delivery_batches (delivery_batch_key 0 id)
        ≡ none)
      × (get (finish_batch id b retained progress w).delivery_batches (delivery_batch_key 1 id)
          ≡ (if retained then some b else get w.delivery_batches (delivery_batch_key 1 id)))
      × (progress_of (finish_batch id b retained progress w) id ≡ [])
unfolding finish_batch is_done delivery_batch_key
finish_batch-done id b true progress w h =
    let m = w.delivery_batches in
    let k0 = delivery_batch_key 0 id in
    let k1 = delivery_batch_key 1 id in
    rw h (
      ground (arith, get-insert (remove m k0) k1 k0 b, get-remove m k0 k0),
      get-insert_self (remove m k0) k1 b,
      progress_of-none _ id (get-remove_self w.delivery_progress id),
    )
finish_batch-done id b false progress w h =
    let m = w.delivery_batches in
    let k0 = delivery_batch_key 0 id in
    let k1 = delivery_batch_key 1 id in
    rw h (
      get-remove_self m k0,
      ground (arith, get-remove m k0 k1),
      progress_of-none _ id (get-remove_self w.delivery_progress id),
    )

-- The rows that are done are rows of the pending batch, each noted once.
unfoldable pub IsProgress : Store → ℕ → Type 0
unfolding progress_of
IsProgress s id =
    (b : DeliveryBatch)
    → get s.delivery_batches (delivery_batch_key 0 id) ≡ some b
    → (i : ℕ)
    → (times i (progress_of s id) ≤ 1) × (1 ≤ times i (progress_of s id) → i < length b.rows)

some-inj {ℓ} : {A : Type ℓ} (o : Option A) (a b : A) → o ≡ some a → o ≡ some b → a ≡ b
some-inj o a b h k = ground arith

is_done-length :
    (progress : List ℕ) (b : DeliveryBatch)
    → is_done progress b ≡ true
    → length progress ≡ length b.rows
unfolding is_done
is_done-length progress b h = (==_iff _ _).0 h

none-ne-some {ℓ} : {A : Type ℓ} {o : Option A} {a : A} → o ≡ none → o ≡ some a → ⊥
none-ne-some h k = cc

module _ (c : Codec) (now_ms : ℤ) (id : ℕ) (o : LaneOutcome) where
  -- The progress that a commit writes.
  progress-within :
      (s s' : Store) (done : Committed c now_ms id o s s')
      → IsProgress s id
      → (i : ℕ)
      → (times i done.progress ≤ 1) × (1 ≤ times i done.progress → i < length done.batch.rows)
  unfolding IsProgress
  progress-within s s' done inv i =
      let old = inv done.batch done.stored i in
      let once = done.completed_once i in
      (
        ground (arith, done.added i, done.first_time i),
        λ h. ground (arith, done.added i, done.in_batch i),
      )

  -- The commit of a lane keeps the progress.
  pub commit_delivery_lane_outcome-IsProgress :
      (s s' : Store)
      → IsProgress s id
      → commit_delivery_lane_outcome c now_ms id o s ≡ ok s'
      → IsProgress s' id
  unfolding IsProgress
  commit_delivery_lane_outcome-IsProgress s s' inv run =
      let done = commit_delivery_lane_outcome-Committed c now_ms id o s s' run in
      let retained = ltb 0 (length o.retries) || has_retries s id in
      elim (Bool-cases (is_done done.progress done.batch)) [
        | inl full ↦ λ b h.
            let (gone, _, _) =
              finish_batch-done id done.batch retained done.progress done.written full in
            absurd (
              none-ne-some
                (ap (λ (t : Store). get t.delivery_batches (delivery_batch_key 0 id)) done.finished
                  ∙ gone)
                h)
        | inr more ↦ λ b h i.
            let (kept, noted) =
              finish_batch-open id done.batch retained done.progress done.written more in
            let same : b ≡ done.batch = some-inj _ b done.batch h (
              ap (λ (t : Store). get t.delivery_batches (delivery_batch_key 0 id)) done.finished
              ∙ ap (λ m. get m (delivery_batch_key 0 id)) (kept ∙ done.batches_kept)
              ∙ done.stored) in
            rw (ap (λ t. progress_of t id) done.finished ∙ noted, same)
              (progress-within s s' done inv i)
      ]

module _ (progress completed after : List ℕ)
    (added : (i : ℕ)
      → contains_row after i ≡ (contains_row progress i || contains_row completed i)) where
  filter-pending_from :
      (index : ℕ) (rows : List DeliveryRow)
      → filter
          (λ (entry : ℕ × DeliveryRow). not (contains_row completed entry.0))
          (pending_from progress index rows)
        ≡ pending_from after index rows
  unfolding filter pending_from
  filter-pending_from index [] = refl
  filter-pending_from index (row ∷ rows) =
      let ih = filter-pending_from (index + 1) rows in
      elim (Bool-cases (contains_row progress index)) [
        | inl old ↦ ground (arith, ih, added index, old)
        | inr new ↦ elim (Bool-cases (contains_row completed index)) [
          | inl done ↦ ground (arith, ih, added index, new, done)
          | inr open_row ↦ ground (arith, ih, added index, new, open_row)
        ]
      ]

pending_from-full :
    (after : List ℕ) (index : ℕ) (rows : List DeliveryRow)
    → ((i : ℕ) → index ≤ i → i < index + length rows → contains_row after i ≡ true)
    → pending_from after index rows ≡ []
unfolding pending_from
pending_from-full after index [] h = refl
pending_from-full after index (row ∷ rows) h = ground (
  arith,
  h index,
  pending_from-full after (index + 1) rows (λ i low high. h i (omega arith) (omega arith)),
)

abbrev pub remaining : LaneOutcome → List (ℕ × DeliveryRow) → List (ℕ × DeliveryRow)
remaining o pending = filter (λ entry. not (contains_row o.completed_rows entry.0)) pending

module _ (c : Codec) (now_ms : ℤ) (id : ℕ) (o : LaneOutcome) where
  added-contains :
      (s s' : Store) (done : Committed c now_ms id o s s') (i : ℕ)
      → contains_row done.progress i
        ≡ (contains_row (progress_of s id) i || contains_row o.completed_rows i)
  added-contains s s' done i = ground (
    arith,
    done.added i,
    contains_row-times done.progress i,
    contains_row-times (progress_of s id) i,
    contains_row-times o.completed_rows i,
  )

  pending_after :
      (s s' : Store) (done : Committed c now_ms id o s s') (pending : List (ℕ × DeliveryRow))
      → pending_delivery_rows s id ≡ ok pending
      → remaining o pending ≡ pending_from done.progress 0 done.batch.rows
  unfolding pending_delivery_rows
  pending_after s s' done pending h =
      let e : pending ≡ pending_from (progress_of s id) 0 done.batch.rows =
        ground (arith, h, done.stored) in
      rw e (
        filter-pending_from (progress_of s id) o.completed_rows done.progress
          (added-contains s s' done) 0 done.batch.rows)

  -- Where the progress of the pending batch is in order, a commit of a lane that succeeds leaves
  -- exactly the pending rows that the lane did not complete, or, where none is left, no pending batch.
  pub commit_delivery_lane_outcome-pending :
      (s s' : Store) (pending : List (ℕ × DeliveryRow))
      → IsProgress s id
      → pending_delivery_rows s id ≡ ok pending
      → commit_delivery_lane_outcome c now_ms id o s ≡ ok s'
      → (pending_delivery_rows s' id ≡ ok (remaining o pending))
        ⊎ ((pending_delivery_rows s' id ≡ err batch_missing) × (remaining o pending ≡ []))
  unfolding pending_delivery_rows
  commit_delivery_lane_outcome-pending s s' pending inv before run =
      let done = commit_delivery_lane_outcome-Committed c now_ms id o s s' run in
      let retained = ltb 0 (length o.retries) || has_retries s id in
      let left = pending_after s s' done pending before in
      elim (Bool-cases (is_done done.progress done.batch)) [
        | inl full ↦
            let (gone, _, _) =
              finish_batch-done id done.batch retained done.progress done.written full in
            let missing : get s'.delivery_batches (delivery_batch_key 0 id) ≡ none =
              ap (λ (t : Store). get t.delivery_batches (delivery_batch_key 0 id)) done.finished
              ∙ gone in
            inr (
              rw missing refl,
              left
                  ∙ pending_from-full done.progress 0 done.batch.rows (λ i low high. ground (
                    arith,
                    contains_row-times done.progress i,
                    times-full (length done.batch.rows) done.progress i
                        (progress-within c now_ms id o s s' done inv) (is_done-length _ _ full)
                        (omega arith),
                  )),
            )
        | inr more ↦
            let (kept, noted) =
              finish_batch-open id done.batch retained done.progress done.written more in
            let found : get s'.delivery_batches (delivery_batch_key 0 id) ≡ some done.batch =
              ap (λ (t : Store). get t.delivery_batches (delivery_batch_key 0 id)) done.finished
              ∙ (ap (λ m. get m (delivery_batch_key 0 id)) (kept ∙ done.batches_kept)
                  ∙ done.stored) in
            inl (rw (found, ap (λ t. progress_of t id) done.finished ∙ noted, left) refl)
      ]

  -- After the commit of a lane, no commit of the same batch that completes one of its rows once more
  -- succeeds.
  pub commit_delivery_lane_outcome-refused :
      (o' : LaneOutcome) (later_ms : ℤ) (i : ℕ) (s s' s'' : Store)
      → commit_delivery_lane_outcome c now_ms id o s ≡ ok s'
      → contains_row o.completed_rows i ≡ true
      → contains_row o'.completed_rows i ≡ true
      → commit_delivery_lane_outcome c later_ms id o' s' ≢ ok s''
  commit_delivery_lane_outcome-refused o' later_ms i s s' s'' run first second again =
      let done = commit_delivery_lane_outcome-Committed c now_ms id o s s' run in
      let later = commit_delivery_lane_outcome-Committed c later_ms id o' s' s'' again in
      let retained = ltb 0 (length o.retries) || has_retries s id in
      elim (Bool-cases (is_done done.progress done.batch)) [
        | inl full ↦
            let (gone, _, _) =
              finish_batch-done id done.batch retained done.progress done.written full in
            none-ne-some
              (ap (λ (t : Store). get t.delivery_batches (delivery_batch_key 0 id)) done.finished
                ∙ gone)
              later.stored
        | inr more ↦
            let (kept, noted) =
              finish_batch-open id done.batch retained done.progress done.written more in
            let e : times i (progress_of s' id) ≡ times i done.progress =
              ap (times i) (ap (λ t. progress_of t id) done.finished ∙ noted) in
            ground (
              arith,
              e,
              done.added i,
              later.first_time i,
              contains_row-times o.completed_rows i,
              contains_row-times o'.completed_rows i,
            )
      ]
