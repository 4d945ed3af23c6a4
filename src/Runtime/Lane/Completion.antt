-- ===== src/Runtime/Lane/Completion.antt =====
-- A lane of a pending batch is completed.
use disaster_alert.Prelude.{
  ℕ, suc, ◌+◌, ◌^◌, ◌≤◌, ◌<◌, ◌⊎◌, ◌≡◌, refl, Bool, true, false, not, ◌&&◌, some, List, [], ◌∷◌,
  length, All, get_elem?, Bool-cases, inl, inr, arith, sym, ap, ◌∙◌, ltb, if◌then◌else◌, ◌==◌,
  ==_iff, filter,
}
use disaster_alert.Prelude.Int.{ℤ}
use disaster_alert.Event.{DisasterEvent}
use disaster_alert.Delivery.{DeliveryBatch, DeliveryRow}
use disaster_alert.Storage.{Store, Codec, ok, err, batch_missing, delivery_batch_key}
use disaster_alert.Storage.Keyspace.{Map, get, nat_key, pair_key}
use disaster_alert.Storage.Lanes.{
  LaneOutcome, contains_row, progress_of, commit_delivery_lane_outcome,
}
use disaster_alert.Storage.Lanes.Rows.{times, contains_row-times}
use disaster_alert.Storage.Lanes.Pending.{
  IsProgress, remaining, commit_delivery_lane_outcome-pending,
}
use disaster_alert.Storage.Retries.{
  pending_from, pending_delivery_rows, delivery_is_destination_head,
}
use disaster_alert.Runtime.Lane.{
  Sender, StoredSubscription, process_destination_lane, lane_of, no_outcome,
}
use disaster_alert.Runtime.Lane.Totals.{IsRoomy, LaneRows}
use disaster_alert.Runtime.Lane.Acceptance.{commit_delivery_lane_outcome_accepts}
use disaster_alert.Runtime.Lane.Attempts.{
  Ids, HasIds, with_ids, Entries, numbers_of, Covers, attempt_rows-Covers,
}

-- A pending row is a row of the batch that is not done yet.
abbrev Pending : DeliveryBatch → List ℕ → (ℕ × DeliveryRow) → Type 0
Pending b progress entry =
    (entry.0 < 2 ^ 32) × (get_elem? b.rows entry.0 ≡ some entry.1) × (times entry.0 progress ≡ 0)

get_elem?-same : (rows : List DeliveryRow) (i j : ℕ) → i ≡ j → get_elem? rows i ≡ get_elem? rows j
get_elem?-same rows i j same = ap (get_elem? rows) same

module _ (b : DeliveryBatch) (progress : List ℕ) where
  pending_from-Pending :
      (index : ℕ) (rows : List DeliveryRow)
      → ((j : ℕ) → get_elem? b.rows (index + j) ≡ get_elem? rows j)
      → All (Pending b progress) (pending_from progress index rows)
  unfolding pending_from
  pending_from-Pending index [] same = tt
  pending_from-Pending index (row ∷ rows) same =
      let rest =
        pending_from-Pending (index + 1) rows (λ j.
          get_elem?-same b.rows (index + 1 + j) (index + suc j) (omega arith) ∙ same (suc j)) in
      let here : get_elem? b.rows index ≡ some row =
        get_elem?-same b.rows index (index + 0) (omega arith) ∙ same 0 in
      elim (Bool-cases (ltb index (2 ^ 32) && not (contains_row progress index))) [
        | inl open_row ↦ rw open_row (
          (
            ground (arith, open_row),
            here,
            ground (arith, open_row, contains_row-times progress index),
          ),
          rest,
        )
        | inr closed ↦ rw closed rest
      ]

times-pending_from :
    (progress : List ℕ) (i index : ℕ) (rows : List DeliveryRow)
    → (times i (numbers_of (pending_from progress index rows)) ≤ 1)
      × (i < index → times i (numbers_of (pending_from progress index rows)) ≡ 0)
unfolding pending_from
times-pending_from progress i index [] = (omega arith, λ h. refl)
times-pending_from progress i index (row ∷ rows) =
    let (once, before) = times-pending_from progress i (index + 1) rows in
    elim (Bool-cases (ltb index (2 ^ 32) && not (contains_row progress index))) [
      | inl open_row ↦ rw open_row (ground (arith, once, before), λ h. ground (arith, before, h))
      | inr closed ↦ rw closed (once, λ h. before (omega arith))
    ]

module _ (destination_id : ℕ) where
  All-lane_of :
      (P : ℕ × DeliveryRow → Type 0) (entries : List (ℕ × DeliveryRow))
      → All P entries
      → All
          (λ entry. P entry × (entry.1.destination_id ≡ destination_id))
          (lane_of destination_id entries)
  unfolding lane_of filter
  All-lane_of P [] h = tt
  All-lane_of P (entry ∷ entries) h = elim (Bool-cases (entry.1.destination_id == destination_id)) [
    | inl same ↦
        rw same
          ((h.0, (==_iff entry.1.destination_id destination_id).0 same), All-lane_of P entries h.1)
    | inr other ↦ rw other (All-lane_of P entries h.1)
  ]

  times-lane_of-le :
      (i : ℕ) (entries : List (ℕ × DeliveryRow))
      → times i (numbers_of (lane_of destination_id entries)) ≤ times i (numbers_of entries)
  unfolding lane_of filter
  times-lane_of-le i [] = omega arith
  times-lane_of-le i (entry ∷ entries) =
      let rest = times-lane_of-le i entries in
      elim (Bool-cases (entry.1.destination_id == destination_id)) [
        | inl same ↦ rw same (omega (arith, rest))
        | inr other ↦ rw other (omega (arith, rest))
      ]

module _ (b : DeliveryBatch) (progress : List ℕ) (destination : ℕ) where
  abbrev InLane : (ℕ × DeliveryRow) → Type 0
  InLane entry = Pending b progress entry × (entry.1.destination_id ≡ destination)

  InLane-Entries : (entries : List (ℕ × DeliveryRow)) → All InLane entries → Entries b entries
  InLane-Entries [] h = tt
  InLane-Entries (entry ∷ entries) ((found, same), h) =
      ((found.0, found.1), InLane-Entries entries h)

  InLane-LaneRows :
      (entries : List (ℕ × DeliveryRow))
      → All InLane entries
      → LaneRows b destination (numbers_of entries)
  InLane-LaneRows [] h = tt
  InLane-LaneRows (entry ∷ entries) ((found, same), h) =
      ((entry.1, found.1, same), InLane-LaneRows entries h)

  InLane-fresh :
      (entries : List (ℕ × DeliveryRow)) (i : ℕ)
      → All InLane entries
      → 1 ≤ times i (numbers_of entries)
      → times i progress ≡ 0
  InLane-fresh [] i h some_time = absurd (omega arith)
  InLane-fresh (entry ∷ entries) i ((found, same), h) some_time = elim (Bool-cases (entry.0 == i)) [
    | inl here ↦ rw (sym ((==_iff entry.0 i).0 here)) found.2
    | inr later ↦ InLane-fresh entries i h (ground (arith, later, some_time))
  ]

remaining-no_outcome : (pending : List (ℕ × DeliveryRow)) → remaining no_outcome pending ≡ pending
unfolding filter contains_row
remaining-no_outcome [] = refl
remaining-no_outcome (entry ∷ pending) = ap (λ p. entry ∷ p) (remaining-no_outcome pending)

module _ (send : Sender) (subscriptions : Map ℕ StoredSubscription) (now_ms : ℤ)
    (event : DisasterEvent) (b : DeliveryBatch) (c : Codec) (roomy : IsRoomy c) (destination : ℕ)
    (s : Store) (stored : get s.delivery_batches (delivery_batch_key 0 b.id) ≡ some b) where
  -- What is left of the pending rows after an outcome.
  abbrev pub Left : LaneOutcome → List (ℕ × DeliveryRow) → Store → Type 0
  Left o pending s' =
      (pending_delivery_rows s' b.id ≡ ok (remaining o pending))
      ⊎ ((pending_delivery_rows s' b.id ≡ err batch_missing) × (remaining o pending ≡ []))

  abbrev pub Completed : List (ℕ × DeliveryRow) → List (ℕ × DeliveryRow) → Type 0
  Completed lane pending =
      (o : LaneOutcome) × (s' : Store) × (process_destination_lane send subscriptions now_ms event b
          c lane s
        ≡ ok (o, s'))
      × (o.completed_rows ≡ numbers_of lane)
      × Left o pending s'

  commits :
      (blocked : Bool) (entries : List (ℕ × DeliveryRow))
      → All (InLane b (progress_of s b.id) destination) entries
      → ((i : ℕ) → times i (numbers_of entries) ≤ 1)
      → (found : Covers send subscriptions now_ms event b blocked entries s)
      → (s' : Store) × (commit_delivery_lane_outcome c now_ms b.id found.0 (with_ids s found.1)
          ≡ ok s')
  unfolding progress_of
  commits blocked entries in_lane once (o, ids, run, completed, covering) =
      commit_delivery_lane_outcome_accepts c roomy now_ms b.id destination o b (with_ids s ids)
        covering (rw completed (InLane-LaneRows b (progress_of s b.id) destination entries in_lane))
        (rw completed once)
        (rw completed (λ i h. InLane-fresh b (progress_of s b.id) destination entries i in_lane h))
        stored refl

  Left-with_ids :
      (pending : List (ℕ × DeliveryRow)) (ids : Ids) (o : LaneOutcome) (s' : Store)
      → IsProgress s b.id
      → pending_delivery_rows s b.id ≡ ok pending
      → commit_delivery_lane_outcome c now_ms b.id o (with_ids s ids) ≡ ok s'
      → Left o pending s'
  unfolding IsProgress pending_delivery_rows progress_of
  Left-with_ids pending ids o s' inv before committed =
      commit_delivery_lane_outcome-pending c now_ms b.id o (with_ids s ids) s' pending inv before
        committed

  process_entries :
      (entries pending : List (ℕ × DeliveryRow))
      → All (InLane b (progress_of s b.id) destination) entries
      → ((i : ℕ) → times i (numbers_of entries) ≤ 1)
      → HasIds (length entries) s.next_ids
      → IsProgress s b.id
      → pending_delivery_rows s b.id ≡ ok pending
      → Completed entries pending
  unfolding process_destination_lane
  process_entries [] pending in_lane once more inv before =
      (no_outcome, s, refl, refl, inl (before ∙ ap ok (sym (remaining-no_outcome pending))))
  process_entries ((index, row) ∷ rows) pending in_lane once more inv before =
      let entries = (index, row) ∷ rows in
      let low : ltb index (2 ^ 32) ≡ true = ground (arith, in_lane.0.0.0) in
      let blocked =
        if delivery_is_destination_head s row.destination_id b.id index then false else true in
      let found =
        attempt_rows-Covers send subscriptions now_ms event b blocked entries s
          (InLane-Entries b (progress_of s b.id) destination entries in_lane) more in
      let (s', committed) = commits blocked entries in_lane once found in
      (
        found.0,
        s',
        rw (low, found.2, committed) refl,
        found.3,
        Left-with_ids pending found.1 found.0 s' inv before committed,
      )

  pending_rows :
      (pending : List (ℕ × DeliveryRow))
      → pending_delivery_rows s b.id ≡ ok pending
      → pending ≡ pending_from (progress_of s b.id) 0 b.rows
  unfolding pending_delivery_rows
  pending_rows pending before = ground (arith, before, stored)

  -- Where the batch is pending with its progress in order, records of numbers and of an error of at most
  -- 1024 characters fit, and new ids are left, the lane of a destination goes through whatever comes of
  -- its rows: each of its pending rows is completed, and the pending rows afterwards are those that the
  -- lane did not complete, or, where none is left, the batch is not pending.
  pub process_destination_lane_completes :
      (pending : List (ℕ × DeliveryRow))
      → IsProgress s b.id
      → pending_delivery_rows s b.id ≡ ok pending
      → HasIds (length (lane_of destination pending)) s.next_ids
      → Completed (lane_of destination pending) pending
  process_destination_lane_completes pending inv before more =
      let progress = progress_of s b.id in
      let same = pending_rows pending before in
      let all_pending : All (Pending b progress) pending = rw same (
        pending_from-Pending b progress 0 b.rows
          (λ j. get_elem?-same b.rows (0 + j) j (omega arith))) in
      let once : (i : ℕ) → times i (numbers_of pending) ≤ 1 =
        rw same (λ i. (times-pending_from progress i 0 b.rows).0) in
      process_entries (lane_of destination pending) pending
        (All-lane_of destination (Pending b progress) pending all_pending)
        (λ i. omega (arith, once i, times-lane_of-le destination i pending)) more inv before
