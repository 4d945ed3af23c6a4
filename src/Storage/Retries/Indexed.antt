-- ===== src/Storage/Retries/Indexed.antt =====
-- The indexes of the retries over the operations of the store.
use mathlib.Core.Path.{subst}
use disaster_alert.Prelude.{◌≡◌, ◌≢◌, refl, Bool, true, ◌&&◌, some, arith, ap, sym, ◌∙◌, ◌==◌}
use disaster_alert.Delivery.{RetryItem, retry_eq, retry_eq_iff}
use disaster_alert.Storage.{Store, Codec, Error, ok, ensure, or_error, encode}
use disaster_alert.Storage.Keyspace.{get, insert, remove, nat_key, pair_key}
use disaster_alert.Storage.Incidents.Records.{bind-ok, ensure-ok}
use disaster_alert.Storage.Lanes.{
  retry_key, retry_destination_key, retry_batch_key, insert_retry_indexes,
}
use disaster_alert.Storage.Lanes.Outcome.{SameRetries}
use disaster_alert.Storage.Lanes.Progress.{or_error-ok}
use disaster_alert.Storage.Retries.{
  reschedule_retry, ensure_retry_current, remove_retry_indexes, complete_retry_in_batch,
}
use disaster_alert.Storage.Pointwise.{
  put_at, drop_at, get-insert_all, get-remove_all, put_at-drop_at,
}
use disaster_alert.Storage.Retries.Lookups.{
  IsIndexed, IsIndexed-of_eq, put-IsIndexed, drop-IsIndexed, RetryKey,
}

abbrev pub RetriesIndexed : Store → Type 0
RetriesIndexed s = IsIndexed (get s.retries) (get s.retries_by_destination) (get s.retries_by_batch)

pub ok-inj {ℓ} : {A : Type ℓ} {a b : A} → ok a ≡ ok b → a ≡ b
ok-inj h = cc

pub ensure_retry_current-get :
    (s : Store) (retry : RetryItem) {u : Unit {0}}
    → ensure_retry_current s retry ≡ ok u
    → get s.retries (retry_key retry) ≡ some retry
unfolding ensure_retry_current
ensure_retry_current-get s retry run =
    let (r, found, run1) =
      bind-ok (or_error (get s.retries (retry_key retry)) Error.retry_missing) _ run in
    let same : r ≡ retry = (retry_eq_iff r retry).0 (ensure-ok _ Error.retry_changed _ run1) in
    or_error-ok _ Error.retry_missing _ found ∙ ap some same

remove_retry_indexes-Indexed :
    (retry : RetryItem) (w : Store)
    → RetriesIndexed w
    → get w.retries (retry_key retry) ≡ some retry
    → RetriesIndexed (remove_retry_indexes retry w)
unfolding remove_retry_indexes
remove_retry_indexes-Indexed retry w inv here =
    rw
      (
        get-remove_all w.retries (retry_key retry),
        get-remove_all w.retries_by_destination (retry_destination_key retry),
        get-remove_all w.retries_by_batch (retry_batch_key retry),
      )
      (drop-IsIndexed (get w.retries) (get w.retries_by_destination) (get w.retries_by_batch) retry
        inv here)

pub insert_retry_indexes-Indexed :
    (c : Codec) (retry : RetryItem) (w w' : Store)
    → RetriesIndexed w
    → ((key : RetryKey) (r : RetryItem) → get w.retries key ≡ some r → r.id ≢ retry.id)
    → insert_retry_indexes c retry w ≡ ok w'
    → RetriesIndexed w'
unfolding insert_retry_indexes
insert_retry_indexes-Indexed c retry w w' inv fresh run =
    let (_, _, run1) = bind-ok (encode (c.retry retry)) _ run in
    let e = (ok-inj run1) in
    subst (λ t. RetriesIndexed t) e
      (rw
        (
          get-insert_all w.retries (retry_key retry) retry,
          get-insert_all w.retries_by_destination (retry_destination_key retry) (retry_key retry),
          get-insert_all w.retries_by_batch (retry_batch_key retry) (retry_key retry),
        )
        (put-IsIndexed (get w.retries) (get w.retries_by_destination) (get w.retries_by_batch) retry
          inv fresh))

-- The retries and their indexes are those of another store.
pub SameRetries-Indexed : (w w' : Store) → SameRetries w w' → RetriesIndexed w → RetriesIndexed w'
SameRetries-Indexed w w' same inv = rw (same.0, same.1, same.2) inv

complete_retry_in_batch-retries :
    (s : Store) (retry : RetryItem) (w : Store)
    → SameRetries (remove_retry_indexes retry w) (complete_retry_in_batch s retry w)
unfolding complete_retry_in_batch
complete_retry_in_batch-retries s retry w = ground arith

pub complete_retry_in_batch-Indexed :
    (s : Store) (retry : RetryItem) (w : Store)
    → RetriesIndexed w
    → get w.retries (retry_key retry) ≡ some retry
    → RetriesIndexed (complete_retry_in_batch s retry w)
complete_retry_in_batch-Indexed s retry w inv here =
    SameRetries-Indexed (remove_retry_indexes retry w) (complete_retry_in_batch s retry w)
      (complete_retry_in_batch-retries s retry w) (remove_retry_indexes-Indexed retry w inv here)

unfoldable pub same_identity : RetryItem → RetryItem → Bool
same_identity previous next =
    previous.id == next.id
    && previous.batch_id == next.batch_id
    && previous.row_index == next.row_index
    && previous.destination_id == next.destination_id

pub reschedule_retry-found :
    (c : Codec) (previous next : RetryItem) (s s' : Store)
    → reschedule_retry c previous next s ≡ ok s'
    → (same_identity previous next ≡ true)
      × (get s.retries (retry_key previous) ≡ some previous)
      × (s'.delivery_batches ≡ s.delivery_batches)
      × (s'.retries ≡ insert (remove s.retries (retry_key previous)) (retry_key next) next)
      × (s'.retries_by_destination
          ≡ insert s.retries_by_destination (retry_destination_key next) (retry_key next))
      × (s'.retries_by_batch ≡ insert s.retries_by_batch (retry_batch_key next) (retry_key next))
unfolding reschedule_retry insert_retry_indexes same_identity
reschedule_retry-found c previous next s s' run =
    let (_, same, run1) =
      bind-ok (ensure (same_identity previous next) Error.retry_mismatch) _ run in
    let (r, found, run2) =
      bind-ok (or_error (get s.retries (retry_key previous)) Error.retry_missing) _ run1 in
    let (_, equal, run3) = bind-ok (ensure (retry_eq r previous) Error.retry_changed) _ run2 in
    let (_, _, run4) = bind-ok (encode (c.retry next)) _ run3 in
    let e = ok-inj run4 in
    (
      ensure-ok _ _ _ same,
      or_error-ok _ Error.retry_missing _ found
          ∙ ap some ((retry_eq_iff r previous).0 (ensure-ok _ Error.retry_changed _ equal)),
      sym (ap (λ (t : Store). t.delivery_batches) e),
      sym (ap (λ (t : Store). t.retries) e),
      sym (ap (λ (t : Store). t.retries_by_destination) e),
      sym (ap (λ (t : Store). t.retries_by_batch) e),
    )

identity-keys :
    (previous next : RetryItem)
    → same_identity previous next ≡ true
    → (retry_batch_key previous ≡ retry_batch_key next)
      × (retry_destination_key previous ≡ retry_destination_key next)
      × (previous.id ≡ next.id)
unfolding same_identity retry_batch_key retry_destination_key
identity-keys previous next h = ground arith

module _ (s : Store) (inv : RetriesIndexed s) (previous next : RetryItem)
    (here : get s.retries (retry_key previous) ≡ some previous)
    (same : same_identity previous next ≡ true) where
  rescheduled-IsIndexed :
      IsIndexed
        (put_at (drop_at (get s.retries) (retry_key previous)) (retry_key next) next)
        (put_at (get s.retries_by_destination) (retry_destination_key next) (retry_key next))
        (put_at (get s.retries_by_batch) (retry_batch_key next) (retry_key next))
  rescheduled-IsIndexed =
      let (batch_key, destination_key, same_id) = identity-keys previous next same in
      let dropped =
        drop-IsIndexed (get s.retries) (get s.retries_by_destination) (get s.retries_by_batch)
          previous inv here in
      let put =
        put-IsIndexed (drop_at (get s.retries) (retry_key previous))
          (drop_at (get s.retries_by_destination) (retry_destination_key previous))
          (drop_at (get s.retries_by_batch) (retry_batch_key previous)) next dropped
          (λ key r h e. ground (
            arith,
            inv.one_id key (retry_key previous) r previous,
            same_id,
            here,
            h,
            e,
            pair_key.beq_iff (retry_key previous) key,
          )) in
      IsIndexed-of_eq _ _ _ _ _ _ refl
        (put_at-drop_at _ _ destination_key (get s.retries_by_destination) (retry_key next))
        (put_at-drop_at _ _ batch_key (get s.retries_by_batch) (retry_key next)) put

pub reschedule_retry-Indexed :
    (c : Codec) (previous next : RetryItem) (s s' : Store)
    → RetriesIndexed s
    → reschedule_retry c previous next s ≡ ok s'
    → RetriesIndexed s'
reschedule_retry-Indexed c previous next s s' inv run =
    let (same, here, _, retries, destinations, batches) =
      reschedule_retry-found c previous next s s' run in
    rw
      (
        retries,
        destinations,
        batches,
        get-insert_all (remove s.retries (retry_key previous)) (retry_key next) next,
        get-remove_all s.retries (retry_key previous),
        get-insert_all s.retries_by_destination (retry_destination_key next) (retry_key next),
        get-insert_all s.retries_by_batch (retry_batch_key next) (retry_key next),
      )
      (rescheduled-IsIndexed s inv previous next here same)
