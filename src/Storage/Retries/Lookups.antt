-- ===== src/Storage/Retries/Lookups.antt =====
-- The retries and their indexes as functions from keys, and what keeps them in step.
use mathlib.Core.Path.{subst}
use disaster_alert.Prelude.{ℕ, ◌≡◌, ◌≢◌, Option, some, Bool-cases, inl, inr, arith}
use disaster_alert.Delivery.{RetryItem}
use disaster_alert.Storage.Lanes.{retry_key, retry_destination_key, retry_batch_key}
use disaster_alert.Storage.Keyspace.{nat_key, pair_key}
use disaster_alert.Storage.Pointwise.{put_at, drop_at}

abbrev pub RetryKey : Type 0
RetryKey = ℕ × ℕ

abbrev pub DestinationKey : Type 0
DestinationKey = (ℕ × ℕ) × (ℕ × ℕ)

-- A retry is stored under its key, no two have one id, and each index has exactly the stored ones.
pub record IsIndexed (retries : RetryKey → Option RetryItem)
    (by_destination : DestinationKey → Option RetryKey) (by_batch : RetryKey → Option RetryKey)
    : Type 0 where
  pub keyed : (key : RetryKey) (r : RetryItem) → retries key ≡ some r → retry_key r ≡ key
  pub one_id :
      (key other : RetryKey) (r q : RetryItem)
      → retries key ≡ some r
      → retries other ≡ some q
      → r.id ≡ q.id
      → key ≡ other
  pub to_batch :
      (key : RetryKey) (r : RetryItem)
      → retries key ≡ some r
      → by_batch (retry_batch_key r) ≡ some key
  pub to_destination :
      (key : RetryKey) (r : RetryItem)
      → retries key ≡ some r
      → by_destination (retry_destination_key r) ≡ some key
  pub from_batch :
      (entry key : RetryKey)
      → by_batch entry ≡ some key
      → (r : RetryItem) × (retries key ≡ some r) × (retry_batch_key r ≡ entry)
  pub from_destination :
      (entry : DestinationKey) (key : RetryKey)
      → by_destination entry ≡ some key
      → (r : RetryItem) × (retries key ≡ some r) × (retry_destination_key r ≡ entry)

module _ (retries : RetryKey → Option RetryItem) (by_destination : DestinationKey → Option RetryKey)
    (by_batch : RetryKey → Option RetryKey) where
  -- A retry with a new id.
  pub put-IsIndexed :
      (retry : RetryItem)
      → IsIndexed retries by_destination by_batch
      → ((key : RetryKey) (r : RetryItem) → retries key ≡ some r → r.id ≢ retry.id)
      → IsIndexed
          (put_at retries (retry_key retry) retry)
          (put_at by_destination (retry_destination_key retry) (retry_key retry))
          (put_at by_batch (retry_batch_key retry) (retry_key retry))
  unfolding retry_key retry_destination_key retry_batch_key
  put-IsIndexed retry inv fresh = record {
    keyed = λ key r h. ground (arith, inv.keyed key r);
    one_id = λ key other r q h g e. ground (
      arith,
      inv.one_id key other r q,
      fresh key r,
      fresh other q,
      inv.keyed key r,
      inv.keyed other q,
    );
    to_batch = λ key r h. ground (arith, inv.to_batch key r, fresh key r, inv.keyed key r);
    to_destination = λ key r h. ground (arith, inv.to_destination key r, fresh key r);
    from_batch = λ entry key h. elim (Bool-cases (pair_key.beq (retry_batch_key retry) entry)) [
      | inl same ↦ (retry, ground (arith, same), ground (arith, same))
      | inr other ↦
          let (r, found, e) = inv.from_batch entry key (ground (arith, other)) in
          (r, ground (arith, found, fresh key r, inv.keyed key r), e)
    ];
    from_destination = λ entry key h.
        elim (Bool-cases (pair_key.beq (retry_destination_key retry) entry)) [
          | inl same ↦ (retry, ground (arith, same), ground (arith, same))
          | inr other ↦
              let (r, found, e) = inv.from_destination entry key (ground (arith, other)) in
              (r, ground (arith, found, fresh key r, inv.keyed key r), e)
        ];
  }

  -- The removal of a stored retry.
  pub drop-IsIndexed :
      (retry : RetryItem)
      → IsIndexed retries by_destination by_batch
      → retries (retry_key retry) ≡ some retry
      → IsIndexed
          (drop_at retries (retry_key retry))
          (drop_at by_destination (retry_destination_key retry))
          (drop_at by_batch (retry_batch_key retry))
  unfolding retry_key retry_destination_key retry_batch_key
  drop-IsIndexed retry inv here = record {
    keyed = λ key r h. ground (arith, inv.keyed key r);
    one_id = λ key other r q h g e. ground (arith, inv.one_id key other r q);
    to_batch =
        λ key r h. ground (arith, inv.to_batch key r, inv.one_id key (retry_key retry) r retry);
    to_destination = λ key r h.
        ground (arith, inv.to_destination key r, inv.one_id key (retry_key retry) r retry);
    from_batch = λ entry key h.
        let (r, found, e) =
          inv.from_batch entry key
            (ground (arith, pair_key.beq_iff (retry_batch_key retry) entry)) in
        (r, ground (arith, found, here, e, inv.keyed key r), e);
    from_destination = λ entry key h.
        let (r, found, e) =
          inv.from_destination entry key
            (ground (arith, pair_key.beq_iff (retry_destination_key retry) entry)) in
        (r, ground (arith, found, here, e, inv.keyed key r), e);
  }

pub IsIndexed-of_eq :
    (r r' : RetryKey → Option RetryItem) (d d' : DestinationKey → Option RetryKey)
    (b b' : RetryKey → Option RetryKey)
    → r ≡ r'
    → d ≡ d'
    → b ≡ b'
    → IsIndexed r d b
    → IsIndexed r' d' b'
IsIndexed-of_eq r r' d d' b b' p q e inv = subst (λ f. f) (λ i. IsIndexed (p i) (q i) (e i)) inv
