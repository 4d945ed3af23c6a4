-- ===== src/Storage/Retries/Scheduled.antt =====
-- The commit of a lane's outcome keeps every retry reachable.
use mathlib.Core.Path.{subst}
use disaster_alert.Prelude.{
  ℕ, ◌≡◌, ◌≢◌, ◌⊎◌, Bool, true, ◌||◌, some, Bool-cases, inl, inr, arith, ap, sym, ◌∙◌, ◌==◌, ==_iff,
  get_elem?, ltb, length,
}
use disaster_alert.Prelude.Int.{ℤ}
use disaster_alert.Delivery.{DeliveryBatch, RetryItem}
use disaster_alert.Storage.{Store, Codec, delivery_batch_key}
use disaster_alert.Storage.Keyspace.{get, nat_key, pair_key}
use disaster_alert.Storage.Lanes.{LaneOutcome, has_retries, finish_batch}
use disaster_alert.Storage.Lanes.Outcome.{SameRetries}
use disaster_alert.Storage.Lanes.Progress.{Committed}
use disaster_alert.Storage.Retries.{delivery_batch}
use disaster_alert.Storage.Retries.Lookups.{RetryKey}
use disaster_alert.Storage.Retries.Indexed.{RetriesIndexed, SameRetries-Indexed}
use disaster_alert.Storage.Retries.Served.{
  Served, RetriesServed, Served-of_eq, has_retries-of_stored, delivery_batch-same,
}
use disaster_alert.Storage.Retries.Lane.{
  NewIds, NewIds-of_eq, HasRow, commit_retries-retries, finish_batch-own, finish_batch-others,
  finish_batch-retries, delivery_batch-pending,
}

-- The indexes agree with the retries, and each retry's batch is stored with its row.
pub record IsScheduled (s : Store) : Type 0 where
  pub indexed : RetriesIndexed s
  pub served : RetriesServed s

some-inj {ℓ} : {A : Type ℓ} {a b : A} → some a ≡ some b → a ≡ b
some-inj h = cc

SameRetries-trans : (u v w : Store) → SameRetries u v → SameRetries v w → SameRetries u w
SameRetries-trans u v w h k = ground arith

module _ (c : Codec) (now_ms : ℤ) (id : ℕ) (o : LaneOutcome) (s s' : Store) (sched : IsScheduled s)
    (new : NewIds s o.retries) (done : Committed c now_ms id o s s') where
  retained : Bool
  retained = ltb 0 (length o.retries) || has_retries s id

  -- A retry that is stored after the commit.
  Left : RetryItem → Type 0
  Left r =
      (HasRow c now_ms done.batch o.completed_rows id r × (retained ≡ true))
      ⊎ ((r.batch_id ≢ id) × Served s r)

  old-Left : (key : RetryKey) (r : RetryItem) → get s.retries key ≡ some r → Left r
  unfolding Left retained Served RetriesServed
  old-Left key r h = elim (Bool-cases (r.batch_id == id)) [
    | inl same ↦
        let e : r.batch_id ≡ id = (==_iff _ _).0 same in
        let (b, row, found, place, destination) = sched.served key r h in
        let batch : done.batch ≡ b = some-inj (
          sym (delivery_batch-pending s id done.batch done.stored)
          ∙ (ap (delivery_batch s) (sym e) ∙ found)) in
        let stays : has_retries s id ≡ true =
          ap (has_retries s) (sym e) ∙ has_retries-of_stored s sched.indexed key r h in
        inl (
          (
            e,
            row,
            ap (λ (d : DeliveryBatch). get_elem? d.rows r.row_index) batch ∙ place,
            destination,
          ),
          ground (arith, stays),
        )
    | inr differs ↦ inr (λ e. ground (arith, differs), sched.served key r h)
  ]

  Left-Served : (r : RetryItem) → Left r → Served s' r
  unfolding Left Served retained
  Left-Served r (inl (own, stays)) =
      let found : delivery_batch s' id ≡ some done.batch =
        ap (λ t. delivery_batch t id)
          (done.finished ∙ ap (λ k. finish_batch id done.batch k done.progress done.written) stays)
        ∙ finish_batch-own id done.batch done.progress done.written
            (ap (λ m. get m (delivery_batch_key 0 id)) done.batches_kept ∙ done.stored) in
      (done.batch, own.1, ap (delivery_batch s') own.0 ∙ found, own.2, own.3)
  Left-Served r (inr (other, served)) =
      Served-of_eq s s' r
        (ap (λ t. delivery_batch t r.batch_id) done.finished
          ∙ (finish_batch-others id done.batch retained done.progress done.written r.batch_id
                (λ e. other (sym e))
              ∙ delivery_batch-same s done.written r.batch_id done.batches_kept))
        served

  pub committed-IsScheduled : IsScheduled s'
  unfolding retained RetriesServed Left
  committed-IsScheduled =
      let base_indexed = SameRetries-Indexed s done.base.1 done.base_kept sched.indexed in
      let (indexed, left) =
        commit_retries-retries c now_ms done.batch o.completed_rows id Left o.retries done.base.0
          done.base.1 done.retried (λ r own some_retry. inl (own, ground (arith, some_retry)))
          base_indexed (NewIds-of_eq s done.base.1 o.retries done.base_kept.0 new)
          (λ key r h. old-Left key r (ap (λ m. get m key) (sym done.base_kept.0) ∙ h))
          done.retries_run in
      let finish = finish_batch-retries id done.batch retained done.progress done.written in
      let same : SameRetries done.retried.1 s' =
        subst (SameRetries done.retried.1) (sym done.finished) (
          SameRetries-trans done.retried.1 done.written
            (finish_batch id done.batch retained done.progress done.written) done.retried_kept
            finish) in
      record {
        indexed = SameRetries-Indexed done.retried.1 s' same indexed;
        served = λ key r h. Left-Served r (left key r (ap (λ m. get m key) (sym same.0) ∙ h));
      }
