-- ===== src/Storage/MatchOutput/Checks.antt =====
-- The batches that the commit of a match job's output accepts, and how it stores them.
use disaster_alert.Prelude.{
  ℕ, ◌+◌, ◌^◌, ◌≤◌, ◌<◌, ◌≡◌, refl, true, false, some, List, [], ◌∷◌, ◌==◌, ltb, leb, length, any,
  arith, All, map, ◌&&◌, ◌∙◌, ap,
}
use disaster_alert.Text.{text_eq, text_eq_iff}
use disaster_alert.Event.{DisasterEvent, category_eq}
use disaster_alert.Event.Key.{category_eq_iff}
use disaster_alert.Delivery.{DeliveryBatch, DeliveryRow, max_delivery_batch_bytes}
use disaster_alert.Storage.{
  max_record_bytes, Store, MatchJob, Codec, ok, encode, delivery_batch_key,
}
use disaster_alert.Storage.Keyspace.{get, nat_key, pair_key, get-insert}
use disaster_alert.Storage.Lanes.Rows.{times}
use disaster_alert.Storage.MatchOutput.{
  batch_exists, contains_id, insert_destinations, insert_batches, check_batches,
}

-- How often an identifier is given to one of the batches.
abbrev pub batch_times : ℕ → List DeliveryBatch → ℕ
batch_times i batches = times i (map (λ (b : DeliveryBatch). b.id) batches)

-- A new batch of rows for the job's incident and event, short enough to be stored.
pub record Acceptable (c : Codec) (s : Store) (job : MatchJob) (event : DisasterEvent)
    (b : DeliveryBatch) : Type 0 where
  pub incident : b.incident_id ≡ job.incident_id
  pub revision : b.event_revision ≡ job.event_revision
  pub category : b.category ≡ event.category
  pub some_rows : 0 < length b.rows
  pub few_rows : length b.rows ≤ 2 ^ 32
  pub fresh : batch_exists s b.id ≡ false
  pub small : c.delivery_batch b ≤ max_delivery_batch_bytes

contains_id-times : (ids : List ℕ) (i : ℕ) → contains_id ids i ≡ ltb 0 (times i ids)
unfolding contains_id any
contains_id-times [] i = ground arith
contains_id-times (j ∷ ids) i = ground (arith, contains_id-times ids i)

module _ (c : Codec) (s : Store) (job : MatchJob) (event : DisasterEvent) where
  -- Acceptable batches with identifiers of their own pass the checks.
  pub check_batches-accepts :
      (seen : List ℕ) (batches : List DeliveryBatch)
      → All (Acceptable c s job event) batches
      → ((i : ℕ) → times i seen + batch_times i batches ≤ 1)
      → check_batches c s job event.category seen batches ≡ ok tt
  unfolding check_batches encode
  check_batches-accepts seen [] h once = refl
  check_batches-accepts seen (b ∷ bs) (a, rest) once =
      let new : contains_id seen b.id ≡ false =
        ground (arith, contains_id-times seen b.id, once b.id) in
      let some_rows : ltb 0 (length b.rows) ≡ true = ground (arith, a.some_rows) in
      let few_rows : leb (length b.rows) (2 ^ 32) ≡ true = ground (arith, a.few_rows) in
      let small : leb (c.delivery_batch b) max_delivery_batch_bytes ≡ true =
        ground (arith, a.small) in
      let fits : leb (c.delivery_batch b) max_record_bytes ≡ true = ground (arith, a.small) in
      let later : check_batches c s job event.category (b.id ∷ seen) bs ≡ ok tt =
        check_batches-accepts (b.id ∷ seen) bs rest (λ i. ground (arith, once i)) in
      let own : (text_eq b.incident_id job.incident_id
            && b.event_revision == job.event_revision
            && category_eq b.category event.category)
          ≡ true =
        ground (
          arith,
          a.incident,
          a.revision,
          text_eq_iff b.incident_id job.incident_id,
          category_eq_iff b.category event.category,
        ) in
      rw (own, some_rows, few_rows, new, a.fresh, fits, small, later) refl

-- The batches that stand as pending under their identifiers.
abbrev pub IsPending : Store → DeliveryBatch → Type 0
IsPending s b = get s.delivery_batches (delivery_batch_key 0 b.id) ≡ some b

insert_destinations-batches :
    (id index : ℕ) (rows : List DeliveryRow) (w : Store)
    → (insert_destinations id index rows w).delivery_batches ≡ w.delivery_batches
unfolding insert_destinations
insert_destinations-batches id index [] w = refl
insert_destinations-batches id index (row ∷ rows) w =
    insert_destinations-batches id (index + 1) rows _

-- A batch that is stored stays so when batches of other identifiers are stored.
insert_batches-keeps :
    (bs : List DeliveryBatch) (w : Store) (b : DeliveryBatch)
    → batch_times b.id bs ≡ 0
    → IsPending w b
    → IsPending (insert_batches bs w) b
unfolding insert_batches delivery_batch_key
insert_batches-keeps [] w b other here = here
insert_batches-keeps (x ∷ bs) w b other here = insert_batches-keeps bs _ b (ground arith) (
    ap (λ m. get m (delivery_batch_key 0 b.id)) (insert_destinations-batches x.id 0 x.rows _)
    ∙ ground (
      arith,
      get-insert w.delivery_batches (delivery_batch_key 0 x.id) (delivery_batch_key 0 b.id) x,
    ))

-- Batches with identifiers of their own are all stored.
pub insert_batches-IsPending :
    (bs : List DeliveryBatch) (w : Store)
    → ((i : ℕ) → batch_times i bs ≤ 1)
    → All (IsPending (insert_batches bs w)) bs
unfolding insert_batches delivery_batch_key
insert_batches-IsPending [] w once = tt
insert_batches-IsPending (b ∷ bs) w once = (
  insert_batches-keeps bs _ b (ground (arith, once b.id)) (
      ap (λ m. get m (delivery_batch_key 0 b.id)) (insert_destinations-batches b.id 0 b.rows _)
      ∙ ground (
        arith,
        get-insert w.delivery_batches (delivery_batch_key 0 b.id) (delivery_batch_key 0 b.id) b,
      )),
  insert_batches-IsPending bs _ (λ i. ground (arith, once i)),
)
