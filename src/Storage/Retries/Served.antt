-- ===== src/Storage/Retries/Served.antt =====
-- The batches that the stored retries need, over the operations of the store.
use mathlib.Core.Path.{subst}
use disaster_alert.Prelude.{
  ℕ, ◌≡◌, ◌≢◌, ◌⊎◌, refl, Bool, true, not, ◌&&◌, some, Bool-cases, inl, inr, arith, ap, sym, ◌∙◌,
  ◌==◌, ==_iff, [], ◌∷◌, any, get_elem?,
}
use disaster_alert.Delivery.{DeliveryBatch, DeliveryRow, RetryItem}
use disaster_alert.Storage.{Store, Codec, ok, delivery_batch_key}
use disaster_alert.Storage.Keyspace.{
  Key, Map, get, insert, remove, nat_key, pair_key, get-insert, get-remove,
}
use disaster_alert.Storage.Lanes.{retry_key, retry_batch_key, has_retries}
use disaster_alert.Storage.Retries.{
  delivery_batch, reschedule_retry, remove_retry_indexes, complete_retry_in_batch, has_other,
}
use disaster_alert.Storage.Retries.Lookups.{RetryKey}
use disaster_alert.Storage.Retries.Indexed.{RetriesIndexed, same_identity, reschedule_retry-found}

-- The batch of a retry is stored, and its row has the retry's destination.
unfoldable pub Served : Store → RetryItem → Type 0
unfolding delivery_batch
Served s r =
    (b : DeliveryBatch) × (row : DeliveryRow) × (delivery_batch s r.batch_id ≡ some b)
    × (get_elem? b.rows r.row_index ≡ some row)
    × (row.destination_id ≡ r.destination_id)

unfoldable pub RetriesServed : Store → Type 0
unfolding Served
RetriesServed s = (key : RetryKey) (r : RetryItem) → get s.retries key ≡ some r → Served s r

any-of-get :
    {K : Type 0} ⦃k : Key K⦄ {V : Type 0} (test : K → Bool) (m : Map K V) (key : K) (v : V)
    → get m key ≡ some v
    → test key ≡ true
    → any (λ (entry : K × V). test entry.0) m ≡ true
unfolding get any
any-of-get test [] key v h t = ground arith
any-of-get ⦃k⦄ test ((j, w) ∷ m) key v h t = elim (Bool-cases (k.beq j key)) [
  | inl same ↦ rw ((k.beq_iff j key).0 same, t) refl
  | inr other ↦ ground (arith, any-of-get test m key v (ground (arith, other)) t)
]

module _ (s : Store) (inv : RetriesIndexed s) (key : RetryKey) (r : RetryItem)
    (stored : get s.retries key ≡ some r) where
  pub has_retries-of_stored : has_retries s r.batch_id ≡ true
  unfolding has_retries retry_batch_key
  has_retries-of_stored =
      any-of-get (λ entry. entry.0 == r.batch_id) s.retries_by_batch (retry_batch_key r) key
        (inv.to_batch key r stored) (ground arith)

  has_other-of_stored :
      (retry : RetryItem)
      → get s.retries (retry_key retry) ≡ some retry
      → retry_key retry ≢ key
      → r.batch_id ≡ retry.batch_id
      → has_other s retry ≡ true
  unfolding has_other retry_batch_key
  has_other-of_stored retry here apart same =
      any-of-get
        (λ entry. entry.0 == retry.batch_id && not (pair_key.beq entry (retry_batch_key retry)))
        s.retries_by_batch (retry_batch_key r) key (inv.to_batch key r stored)
        (ground (arith, inv.to_batch key r stored, inv.to_batch (retry_key retry) retry here))

pub delivery_batch-same :
    (s w : Store) (other : ℕ)
    → w.delivery_batches ≡ s.delivery_batches
    → delivery_batch w other ≡ delivery_batch s other
unfolding delivery_batch
delivery_batch-same s w other e = rw e refl

delivery_batch-remove :
    (s w : Store) (id other : ℕ)
    → w.delivery_batches ≡ remove s.delivery_batches (delivery_batch_key 1 id)
    → id ≢ other
    → delivery_batch w other ≡ delivery_batch s other
unfolding delivery_batch delivery_batch_key
delivery_batch-remove s w id other e h =
    let m = s.delivery_batches in
    ground (arith, e, get-remove m (1, id) (0, other), get-remove m (1, id) (1, other))

pub complete_retry_in_batch-kept :
    (s : Store) (retry : RetryItem) (w : Store)
    → (w.retries ≡ s.retries)
    → ((complete_retry_in_batch s retry w).retries ≡ remove s.retries (retry_key retry))
unfolding complete_retry_in_batch remove_retry_indexes
complete_retry_in_batch-kept s retry w e = ground (arith, e)

complete_retry_in_batch-batches :
    (s : Store) (retry : RetryItem) (w : Store) (other : ℕ)
    → w.delivery_batches ≡ s.delivery_batches
    → (has_other s retry ≡ true) ⊎ (retry.batch_id ≢ other)
    → delivery_batch (complete_retry_in_batch s retry w) other ≡ delivery_batch s other
unfolding complete_retry_in_batch remove_retry_indexes
complete_retry_in_batch-batches s retry w other e h = elim (Bool-cases (has_other s retry)) [
  | inl kept ↦ delivery_batch-same _ _ other (ground (arith, kept, e))
  | inr gone ↦
      delivery_batch-remove s _ retry.batch_id other (ground (arith, gone, e))
        (ground (arith, gone, h))
]

pub Served-of_eq :
    (s w : Store) (r : RetryItem)
    → delivery_batch w r.batch_id ≡ delivery_batch s r.batch_id
    → Served s r
    → Served w r
unfolding Served
Served-of_eq s w r e (b, row, found, place, same) = (b, row, e ∙ found, place, same)

pub complete_retry_in_batch-Served :
    (s : Store) (retry : RetryItem) (w : Store)
    → RetriesIndexed s
    → RetriesServed s
    → get s.retries (retry_key retry) ≡ some retry
    → w.retries ≡ s.retries
    → w.delivery_batches ≡ s.delivery_batches
    → RetriesServed (complete_retry_in_batch s retry w)
unfolding RetriesServed
complete_retry_in_batch-Served s retry w inv served here same_retries same_batches key r h =
    let left : get (remove s.retries (retry_key retry)) key ≡ some r =
      ap (λ m. get m key) (sym (complete_retry_in_batch-kept s retry w same_retries)) ∙ h in
    let split = get-remove s.retries (retry_key retry) key in
    let apart : retry_key retry ≢ key =
      λ e. ground (arith, left, split, pair_key.beq_iff (retry_key retry) key) in
    let stored : get s.retries key ≡ some r = ground (arith, left, split) in
    Served-of_eq s (complete_retry_in_batch s retry w) r
      (complete_retry_in_batch-batches s retry w r.batch_id same_batches
        (elim (Bool-cases (retry.batch_id == r.batch_id)) [
          | inl same ↦
              inl (
                has_other-of_stored s inv key r stored retry here apart (sym ((==_iff _ _).0 same)))
          | inr differs ↦ inr (λ e. ground (arith, differs))
        ]))
      (served key r stored)

Served-next :
    (s w : Store) (previous next : RetryItem)
    → w.delivery_batches ≡ s.delivery_batches
    → same_identity previous next ≡ true
    → Served s previous
    → Served w next
unfolding Served same_identity
Served-next s w previous next e same (b, row, found, place, destination) =
    let same_batch : previous.batch_id ≡ next.batch_id = ground arith in
    let same_row : previous.row_index ≡ next.row_index = ground arith in
    let same_destination : previous.destination_id ≡ next.destination_id = ground arith in
    (
      b,
      row,
      delivery_batch-same s w next.batch_id e ∙ ap (delivery_batch s) (sym same_batch) ∙ found,
      ap (get_elem? b.rows) (sym same_row) ∙ place,
      destination ∙ same_destination,
    )

pub reschedule_retry-Served :
    (c : Codec) (previous next : RetryItem) (s s' : Store)
    → RetriesServed s
    → reschedule_retry c previous next s ≡ ok s'
    → RetriesServed s'
unfolding RetriesServed
reschedule_retry-Served c previous next s s' served run key r h =
    let (same, here, batches, retries, _, _) = reschedule_retry-found c previous next s s' run in
    let left : get (insert (remove s.retries (retry_key previous)) (retry_key next) next) key
        ≡ some r =
      ap (λ m. get m key) (sym retries) ∙ h in
    let put = get-insert (remove s.retries (retry_key previous)) (retry_key next) key next in
    let split = get-remove s.retries (retry_key previous) key in
    elim (Bool-cases (pair_key.beq (retry_key next) key)) [
      | inl new ↦
          let same_retry : next ≡ r = ground (arith, left, put, new) in
          subst (Served s') same_retry (
            Served-next s s' previous next batches same (served (retry_key previous) previous here))
      | inr old ↦
          Served-of_eq s s' r (delivery_batch-same s s' r.batch_id batches)
            (served key r (ground (arith, left, put, split, old)))
    ]
