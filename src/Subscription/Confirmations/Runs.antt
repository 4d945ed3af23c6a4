-- ===== src/Subscription/Confirmations/Runs.antt =====
-- The index of confirmations over any run of the manager's operations.
use mathlib.Core.Path.{subst}
use disaster_alert.Prelude.{
  ℕ, ◌+◌, ◌-◌, ◌^◌, ◌≤◌, ◌≡◌, ◌⊎◌, refl, Bool, true, false, Option, none, some, List, [], ◌∷◌, ◌++◌,
  leb, length, Bool-cases, Option-cases, inl, inr, arith, ap, sym, ◌∙◌, ◌==◌, ==_iff,
}
use disaster_alert.Prelude.Int.{ℤ, leb_ℤ, saturating_sub}
use disaster_alert.Text.{Text, text, text_eq, text_eq_iff}
use disaster_alert.Event.Digest.{Platform}
use disaster_alert.Storage.{Store, Result, ok, err}
use disaster_alert.Storage.Keyspace.{
  get, insert, remove, nat_key, text_key, get-insert, get-remove, get-insert_self,
}
use disaster_alert.Storage.Pointwise.{get-insert_all, get-remove_all}
use disaster_alert.Storage.Confirmations.{
  destination_digest, remove_confirmation, replace_current, replace_confirmation,
  confirmation_record, begin_confirmation, drop_previous, remove_confirmation_for_destination,
  confirmation_records,
}
use disaster_alert.Storage.Ingest.{get_id, next_id}
use disaster_alert.Subscription.{DestinationId, Subscription}
use disaster_alert.Subscription.Validate.{Urls, validate}
use disaster_alert.Storage.Incidents.Records.{bind-ok}
use disaster_alert.Subscription.Confirmations.Leasing
use disaster_alert.Subscription.Confirmations.Leasing.{
  Visit, passed, stopped, failed, is_due, lease_one, next_lease, visit, lease_all,
  lease_due_confirmations,
}
use disaster_alert.Subscription.Confirmations.{
  ConfirmationOperation, ConfirmationCodec, confirmation, change_held, holds_token, is_leased,
  renewed_lease, rescheduled, renew_confirmation_lease, reschedule_confirmation,
  abandon_confirmation, renew_held, reschedule_held, abandon_held, LeasedSubscriptionConfirmation,
  begin_lease, first_lease, validated, decode_all, without_retired, decode_record,
  decode_record-encode_record,
}
use disaster_alert.Subscription.Confirmations.Index.{
  ConfirmationsIndexed, digest_of, drop-IsIndexed, replace-IsIndexed, begin_confirmation-Indexed,
  remove_confirmation_for_destination-Indexed,
}

pub swapped-ok :
    (leases : List LeasedSubscriptionConfirmation) (r : Result (Bool × Store))
    (more : List LeasedSubscriptionConfirmation) (s' : Store)
    → Leasing.swapped leases r ≡ passed more s'
    → (b : Bool) × (r ≡ ok (b, s'))
unfolding Leasing.swapped
swapped-ok leases (err e) more s' h = absurd (ground (arith, h))
swapped-ok leases (ok (true, s)) more s' h = (true, ground (arith, h))
swapped-ok leases (ok (false, s)) more s' h = (false, ground (arith, h))

-- The confirmations are indexed, and their ids were all given out.
pub record IsSound (p : Platform) (c : ConfirmationCodec) (s : Store) : Type 0 where
  pub indexed : ConfirmationsIndexed p c s
  pub below :
      (id : ℕ) (bytes : List ℕ)
      → get s.confirmations id ≡ some bytes
      → id ≤ get_id (get s.next_ids (text "confirmation"))

module _ (p : Platform) (c : ConfirmationCodec) where
  -- What a swap has done: nothing, or it has found what it expects.
  pub replaced-cases :
      (id : ℕ) (expected : List ℕ) (replacement : Option (List ℕ))
      (destination : Option DestinationId) (s : Store) (swapped : Bool) (s' : Store)
      → replace_confirmation p id expected replacement destination s ≡ ok (swapped, s')
      → ((swapped ≡ false) × (s' ≡ s))
        ⊎ ((get s.confirmations id ≡ some expected)
            × (replace_current p id replacement destination s ≡ ok (swapped, s')))
  unfolding replace_confirmation
  replaced-cases id expected replacement destination s swapped s' run =
      elim (Option-cases (get s.confirmations id)) [
        | inl gone ↦ inl (ground (arith, gone), ground (arith, gone))
        | inr (current, found) ↦ elim (Bool-cases (text_eq current expected)) [
          | inl same ↦
              inr (
                found ∙ ap some ((text_eq_iff current expected).0 same),
                ground (arith, found, same),
              )
          | inr other ↦ inl (ground (arith, found, other), ground (arith, found, other))
        ]
      ]

  -- A confirmation is swapped for one of the same id and destination.
  swap-IsSound :
      (op op' : ConfirmationOperation) (s : Store) (swapped : Bool) (s' : Store)
      → op'.id ≡ op.id
      → digest_of p c op' ≡ digest_of p c op
      → IsSound p c s
      → replace_confirmation p op.id (c.encode_record op) (some (c.encode_record op')) none s
        ≡ ok (swapped, s')
      → IsSound p c s'
  unfolding replace_current without_retired
  swap-IsSound op op' s swapped s' same digest sound run =
      elim (replaced-cases op.id _ _ none s swapped s' run) [
        | inl (_, e) ↦ rw e sound
        | inr (found, run1) ↦
            let w : Store = record s {
              confirmations = insert s.confirmations op.id (c.encode_record op');
            } in
            let e : s' ≡ w = ground (arith, run1) in
            rw e (record {
              indexed = rw (get-insert_all s.confirmations op.id (c.encode_record op')) (
                  replace-IsIndexed p c _ _ sound.indexed (without_retired op) op'
                    (c.encode_record op) found (decode_record-encode_record c op) same digest);
              below = λ id bytes h. elim (Bool-cases (op.id == id)) [
                | inl mine ↦ rw (← (==_iff op.id id).0 mine) (sound.below op.id _ found)
                | inr other ↦ sound.below id bytes (
                    ground
                      (arith, h, other, get-insert s.confirmations op.id id (c.encode_record op')))
              ];
            })
      ]

  -- A confirmation is removed with the entry of its destination.
  removal-IsSound :
      (op : ConfirmationOperation) (id : ℕ) (s : Store) (swapped : Bool) (s' : Store)
      → IsSound p c s
      → replace_confirmation p id (c.encode_record op) none (some op.subscription.destination) s
        ≡ ok (swapped, s')
      → IsSound p c s'
  unfolding replace_current remove_confirmation
  removal-IsSound op id s swapped s' sound run =
      elim (replaced-cases id _ none _ s swapped s' run) [
        | inl (_, e) ↦ rw e sound
        | inr (found, run1) ↦
            elim (Option-cases (get s.confirmation_destinations (digest_of p c op))) [
              | inl gone ↦ absurd (ground (arith, gone, run1))
              | inr (stored, there) ↦ elim (Bool-cases (stored == id)) [
                | inr other ↦ absurd (ground (arith, there, other, run1))
                | inl mine ↦
                    let w : Store = record s {
                      confirmations = remove s.confirmations id;
                      confirmation_destinations =
                          remove s.confirmation_destinations (digest_of p c op);
                    } in
                    let e : s' ≡ w = ground (arith, there, mine, run1) in
                    rw e (record {
                      indexed =
                          rw
                            (
                              get-remove_all s.confirmations id,
                              get-remove_all s.confirmation_destinations (digest_of p c op),
                            )
                            (drop-IsIndexed p c _ _ sound.indexed (digest_of p c op) id
                              (there ∙ ap some ((==_iff stored id).0 mine)));
                      below = λ j bytes h.
                          sound.below j bytes (ground (arith, h, get-remove s.confirmations id j));
                    })
              ]
            ]
      ]

  pub decoded-found :
      (id : ℕ) (s : Store) (op : ConfirmationOperation)
      → confirmation c s id ≡ ok (some op)
      → (bytes : List ℕ) × (get s.confirmations id ≡ some bytes) × (decode_record c bytes ≡ some op)
  unfolding confirmation confirmation_record
  decoded-found id s op h = elim (Option-cases (get s.confirmations id)) [
    | inl gone ↦ absurd (ground (arith, gone, h))
    | inr (bytes, found) ↦ elim (Option-cases (decode_record c bytes)) [
      | inl bad ↦ absurd (ground (arith, found, bad, h))
      | inr (q, read) ↦ (bytes, found, ground (arith, found, read, h))
    ]
  ]

  -- A change is refused, or made to the stored operation that holds the token.
  pub held-cases :
      (id token : ℕ) (change : ConfirmationOperation → Store → Result (Bool × Store)) (s : Store)
      (swapped : Bool) (s' : Store)
      → change_held c id token change s ≡ ok (swapped, s')
      → ((swapped ≡ false) × (s' ≡ s))
        ⊎ ((op : ConfirmationOperation) × (confirmation c s id ≡ ok (some op))
            × (holds_token op token ≡ true)
            × (change op s ≡ ok (swapped, s')))
  unfolding change_held
  held-cases id token change s swapped s' run = go (confirmation c s id) refl
    where
      go :
          (found : Result (Option ConfirmationOperation))
          → confirmation c s id ≡ found
          → ((swapped ≡ false) × (s' ≡ s))
            ⊎ ((op : ConfirmationOperation) × (confirmation c s id ≡ ok (some op))
                × (holds_token op token ≡ true)
                × (change op s ≡ ok (swapped, s')))
      go (err e) h = absurd (ground (arith, h, run))
      go (ok none) h = inl (ground (arith, h, run), ground (arith, h, run))
      go (ok (some op)) h = elim (Bool-cases (holds_token op token)) [
        | inl holds ↦ inr (op, h, holds, ground (arith, h, holds, run))
        | inr other ↦ inl (ground (arith, h, other, run), ground (arith, h, other, run))
      ]

  -- A change by the holder of the token, which keeps the confirmations sound.
  change_held-IsSound :
      (id token : ℕ) (change : ConfirmationOperation → Store → Result (Bool × Store)) (s : Store)
      (swapped : Bool) (s' : Store)
      → IsSound p c s
      → ((op : ConfirmationOperation)
          → op.id ≡ id
          → change op s ≡ ok (swapped, s')
          → IsSound p c s')
      → change_held c id token change s ≡ ok (swapped, s')
      → IsSound p c s'
  unfolding change_held
  change_held-IsSound id token change s swapped s' sound keep run =
      elim (held-cases id token change s swapped s' run) [
        | inl (_, e) ↦ rw e sound
        | inr (op, found, _, run1) ↦
            let (bytes, there, read) = decoded-found id s op found in
            let (q, decoded, same, _) = sound.indexed.named id bytes there in
            let e : op ≡ q = ground (arith, read, decoded) in
            keep op (ap (λ (o : ConfirmationOperation). o.id) e ∙ same) run1
      ]

  -- The three operations of the holder of a token.
  renew-IsSound :
      (id token : ℕ) (now_ms lease_for_ms : ℤ) (s : Store) (swapped : Bool) (s' : Store)
      → IsSound p c s
      → renew_confirmation_lease p c id token now_ms lease_for_ms s ≡ ok (swapped, s')
      → IsSound p c s'
  unfolding renew_confirmation_lease renew_held
  renew-IsSound id token now_ms lease_for_ms s swapped s' sound run =
      change_held-IsSound id token (renew_held p c id now_ms lease_for_ms) s swapped s' sound
        (λ op e h. elim (Bool-cases (is_leased op.state)) [
          | inl held ↦
              swap-IsSound op (renewed_lease now_ms lease_for_ms op) s swapped s' refl refl sound
                (rw e (ground (arith, held, h)))
          | inr other ↦ let same : s' ≡ s = ground (arith, other, h) in rw same sound
        ])
        run

  reschedule-IsSound :
      (id token : ℕ) (attempted_at_ms due_at_ms : ℤ) (error : Text) (s : Store) (swapped : Bool)
      (s' : Store)
      → IsSound p c s
      → reschedule_confirmation p c id token attempted_at_ms due_at_ms error s ≡ ok (swapped, s')
      → IsSound p c s'
  unfolding reschedule_confirmation reschedule_held
  reschedule-IsSound id token attempted_at_ms due_at_ms error s swapped s' sound run =
      change_held-IsSound id token (reschedule_held p c id attempted_at_ms due_at_ms error) s
        swapped s' sound
        (λ op e h.
          swap-IsSound op (rescheduled attempted_at_ms due_at_ms error op) s swapped s' refl refl
            sound
            (subst
              (λ (j : ℕ).
                replace_confirmation p j (c.encode_record op)
                  (some (c.encode_record (rescheduled attempted_at_ms due_at_ms error op))) none s
                ≡ ok (swapped, s'))
              (sym e) h))
        run

  abandon-IsSound :
      (id token : ℕ) (s : Store) (swapped : Bool) (s' : Store)
      → IsSound p c s
      → abandon_confirmation p c id token s ≡ ok (swapped, s')
      → IsSound p c s'
  unfolding abandon_confirmation abandon_held
  abandon-IsSound id token s swapped s' sound run =
      change_held-IsSound id token (abandon_held p c id) s swapped s' sound
        (λ op e h. removal-IsSound op id s swapped s' sound h) run

  removed-kept :
      (destination : DestinationId) (s : Store) (id : ℕ) (bytes : List ℕ)
      → get (remove_confirmation_for_destination p destination s).1.confirmations id ≡ some bytes
      → get s.confirmations id ≡ some bytes
  unfolding remove_confirmation_for_destination
  removed-kept destination s id bytes h =
      elim (Option-cases (get s.confirmation_destinations (destination_digest p destination))) [
        | inl free ↦ ground (arith, free, h)
        | inr (mine, found) ↦ ground (arith, found, h, get-remove s.confirmations mine id)
      ]

  removed-ids :
      (destination : DestinationId) (s : Store)
      → (remove_confirmation_for_destination p destination s).1.next_ids ≡ s.next_ids
  unfolding remove_confirmation_for_destination
  removed-ids destination s = ground arith

  remove-IsSound :
      (destination : DestinationId) (s : Store)
      → IsSound p c s
      → IsSound p c (remove_confirmation_for_destination p destination s).1
  remove-IsSound destination s sound = record {
    indexed = remove_confirmation_for_destination-Indexed p c s destination sound.indexed;
    below = λ id bytes h.
        rw (removed-ids destination s)
          (sound.below id bytes (removed-kept destination s id bytes h));
  }

  next_id-given :
      (name : Text) (s : Store) (given : ℕ × Store)
      → next_id name s ≡ ok given
      → (given.0 ≡ get_id (get s.next_ids name) + 1)
        × (given.1 ≡ record s { next_ids = insert s.next_ids name given.0 })
  unfolding next_id
  next_id-given name s given run = elim (Bool-cases (get_id (get s.next_ids name) == 2 ^ 64 - 1)) [
    | inl full ↦ absurd (ground (arith, full, run))
    | inr free ↦
        let e : given ≡ (
          get_id (get s.next_ids name) + 1,
          record s { next_ids = insert s.next_ids name (get_id (get s.next_ids name) + 1) },
        ) =
          ground (arith, free, run) in
        rw e (refl, refl)
  ]

  begun-kept :
      (id : ℕ) (destination : DestinationId) (value : List ℕ) (s : Store) (j : ℕ) (bytes : List ℕ)
      → get (begin_confirmation p id destination value s).confirmations j ≡ some bytes
      → (id ≡ j) ⊎ (get s.confirmations j ≡ some bytes)
  unfolding begin_confirmation drop_previous
  begun-kept id destination value s j bytes h = elim (Bool-cases (id == j)) [
    | inl mine ↦ inl ((==_iff id j).0 mine)
    | inr other ↦
        elim (Option-cases (get s.confirmation_destinations (destination_digest p destination))) [
          | inl free ↦ inr (ground (arith, free, other, h, get-insert s.confirmations id j value))
          | inr (previous, found) ↦ inr (
              ground (
                arith,
                found,
                other,
                h,
                get-insert (remove s.confirmations previous) id j value,
                get-remove s.confirmations previous j,
              ))
        ]
  ]

  begun-ids :
      (id : ℕ) (destination : DestinationId) (value : List ℕ) (s : Store)
      → (begin_confirmation p id destination value s).next_ids ≡ s.next_ids
  unfolding begin_confirmation drop_previous
  begun-ids id destination value s =
      elim (Option-cases (get s.confirmation_destinations (destination_digest p destination))) [
        | inl free ↦ rw (free, begin_confirmation) refl
        | inr (previous, found) ↦ rw (found, begin_confirmation) refl
      ]

  -- A confirmation that begins under the next id.
  begun-IsSound :
      (op : ConfirmationOperation) (s s1 : Store)
      → IsSound p c s
      → op.id ≡ get_id (get s.next_ids (text "confirmation")) + 1
      → s1 ≡ record s { next_ids = insert s.next_ids (text "confirmation") op.id }
      → IsSound p c (begin_confirmation p op.id op.subscription.destination (c.encode_record op) s1)
  begun-IsSound op s s1 sound next e =
      let value = c.encode_record op in
      let given : get_id (get s1.next_ids (text "confirmation")) ≡ op.id =
        rw (e, get-insert_self s.next_ids (text "confirmation") op.id) refl in
      let fresh : get s1.confirmations op.id ≡ none =
        rw e (elim (Option-cases (get s.confirmations op.id)) [
          | inl free ↦ free
          | inr (bytes, taken) ↦ absurd (omega (arith, sound.below op.id bytes taken))
        ]) in
      record {
        indexed = begin_confirmation-Indexed p c op s1 (rw e sound.indexed) fresh;
        below = λ j bytes h.
            rw (begun-ids op.id op.subscription.destination value s1, given)
              (elim (begun-kept op.id op.subscription.destination value s1 j bytes h) [
                | inl mine ↦ omega arith
                | inr old ↦ omega (
                  arith,
                  sound.below j bytes (ap (λ (t : Store). get t.confirmations j) (sym e) ∙ old),
                )
              ]);
      }

  begin-IsSound :
      (u : Urls) (subscription : Subscription) (now_ms lease_for_ms : ℤ) (s : Store)
      (lease : LeasedSubscriptionConfirmation) (s' : Store)
      → IsSound p c s
      → begin_lease p u c subscription now_ms lease_for_ms s ≡ ok (lease, s')
      → IsSound p c s'
  unfolding begin_lease next_id first_lease
  begin-IsSound u subscription now_ms lease_for_ms s lease s' sound run =
      let (_, _, run1) = bind-ok (validated (validate u subscription)) _ run in
      let (given, next, run2) = bind-ok (next_id (text "confirmation") s) _ run1 in
      let op = first_lease p given.0 subscription now_ms lease_for_ms in
      let (id, ids) = next_id-given (text "confirmation") s given next in
      let e : s'
          ≡ begin_confirmation p op.id op.subscription.destination (c.encode_record op) given.1 =
        ground (arith, run2) in
      rw e (begun-IsSound op s given.1 sound id ids)

  module _ (now_ms lease_for_ms max_age_ms : ℤ) (limit : ℕ) where
    visit-IsSound :
        (count : ℕ) (op : ConfirmationOperation) (s : Store)
        (more : List LeasedSubscriptionConfirmation) (s' : Store)
        → IsSound p c s
        → visit p c now_ms lease_for_ms max_age_ms limit count op s ≡ passed more s'
        → IsSound p c s'
    unfolding visit lease_one next_lease
    visit-IsSound count op s more s' sound run =
        elim (Bool-cases (leb_ℤ max_age_ms (saturating_sub now_ms op.created_at_ms))) [
          | inl expired ↦
              let (b, h) = swapped-ok _ _ more s' (rw (expired, visit) at run) in
              removal-IsSound op op.id s b s' sound h
          | inr young ↦ elim (Bool-cases (is_due now_ms op.state op)) [
            | inr waiting ↦ let e : s' ≡ s = ground (arith, young, waiting, run) in rw e sound
            | inl due ↦
                let run1 : lease_one p c now_ms lease_for_ms op s ≡ passed more s' =
                  ground (arith, young, due, run) in
                elim (Bool-cases (leb (2 ^ 64) (op.lease_generation + 1))) [
                  | inl full ↦ absurd (ground (arith, full, run1))
                  | inr free ↦
                      let (b, h) = swapped-ok _ _ more s' (rw (free, lease_one) at run1) in
                      swap-IsSound op (next_lease p c now_ms lease_for_ms op) s b s' refl refl sound
                        h
                ]
          ]
        ]

    lease_all-IsSound :
        (leases : List LeasedSubscriptionConfirmation) (ops : List ConfirmationOperation)
        (s : Store)
        → IsSound p c s
        → IsSound p c (lease_all p c now_ms lease_for_ms max_age_ms limit leases ops s).1
    unfolding lease_all
    lease_all-IsSound leases [] s sound = sound
    lease_all-IsSound leases (op ∷ ops) s sound =
        go (visit p c now_ms lease_for_ms max_age_ms limit (length leases) op s) refl
          (λ more s'. lease_all-IsSound (leases ++ more) ops s')
      where
        go :
            (v : Visit)
            → visit p c now_ms lease_for_ms max_age_ms limit (length leases) op s ≡ v
            → ((more : List LeasedSubscriptionConfirmation) (s' : Store)
                → IsSound p c s'
                → IsSound p c
                    (lease_all p c now_ms lease_for_ms max_age_ms limit (leases ++ more) ops s').1)
            → IsSound p c (lease_all p c now_ms lease_for_ms max_age_ms limit leases (op ∷ ops) s).1
        go (passed more s') h later =
            rw (h, lease_all) (later more s' (visit-IsSound (length leases) op s more s' sound h))
        go stopped h later = rw (h, lease_all) sound
        go (failed e) h later = rw (h, lease_all) sound

    lease_due-IsSound :
        (s : Store)
        → IsSound p c s
        → IsSound p c (lease_due_confirmations p c now_ms lease_for_ms max_age_ms limit s).1
    unfolding lease_due_confirmations
    lease_due-IsSound s sound = go (decode_all c (confirmation_records s)) refl
      where
        go :
            (all_ops : Result (List ConfirmationOperation))
            → decode_all c (confirmation_records s) ≡ all_ops
            → IsSound p c (lease_due_confirmations p c now_ms lease_for_ms max_age_ms limit s).1
        go (err e) h = rw (h, lease_due_confirmations) sound
        go (ok ops) h = rw (h, lease_due_confirmations) (lease_all-IsSound [] ops s sound)

-- The operations on confirmations, whether they succeed or fail.
pub data ConfirmationStep (p : Platform) (c : ConfirmationCodec) : Store → Store → Type 0 where
  begun :
      {s s' : Store} (u : Urls) (subscription : Subscription) (now_ms lease_for_ms : ℤ)
      (lease : LeasedSubscriptionConfirmation)
      → begin_lease p u c subscription now_ms lease_for_ms s ≡ ok (lease, s')
      → ConfirmationStep p c s s'
  leases :
      {s s' : Store} (now_ms lease_for_ms max_age_ms : ℤ) (limit : ℕ)
      → (lease_due_confirmations p c now_ms lease_for_ms max_age_ms limit s).1 ≡ s'
      → ConfirmationStep p c s s'
  renewed :
      {s s' : Store} (id token : ℕ) (now_ms lease_for_ms : ℤ) (done : Bool)
      → renew_confirmation_lease p c id token now_ms lease_for_ms s ≡ ok (done, s')
      → ConfirmationStep p c s s'
  put_off :
      {s s' : Store} (id token : ℕ) (attempted_at_ms due_at_ms : ℤ) (error : Text) (done : Bool)
      → reschedule_confirmation p c id token attempted_at_ms due_at_ms error s ≡ ok (done, s')
      → ConfirmationStep p c s s'
  abandoned :
      {s s' : Store} (id token : ℕ) (done : Bool)
      → abandon_confirmation p c id token s ≡ ok (done, s')
      → ConfirmationStep p c s s'
  removed :
      {s s' : Store} (destination : DestinationId)
      → (remove_confirmation_for_destination p destination s).1 ≡ s'
      → ConfirmationStep p c s s'

pub data ConfirmationRun (p : Platform) (c : ConfirmationCodec) (s : Store) : Store → Type 0 where
  no_step : ConfirmationRun p c s s
  more_step :
      {t u : Store} → ConfirmationRun p c s t → ConfirmationStep p c t u → ConfirmationRun p c s u

module _ (p : Platform) (c : ConfirmationCodec) where
  ConfirmationStep-IsSound :
      {s s' : Store} → ConfirmationStep p c s s' → IsSound p c s → IsSound p c s'
  ConfirmationStep-IsSound {s} {s'} (begun u subscription now_ms lease_for_ms lease run) sound =
      begin-IsSound p c u subscription now_ms lease_for_ms s lease s' sound run
  ConfirmationStep-IsSound {s} {s'} (leases now_ms lease_for_ms max_age_ms limit run) sound =
      rw (sym run) (lease_due-IsSound p c now_ms lease_for_ms max_age_ms limit s sound)
  ConfirmationStep-IsSound {s} {s'} (renewed id token now_ms lease_for_ms done run) sound =
      renew-IsSound p c id token now_ms lease_for_ms s done s' sound run
  ConfirmationStep-IsSound {s} {s'} (put_off id token attempted due error done run) sound =
      reschedule-IsSound p c id token attempted due error s done s' sound run
  ConfirmationStep-IsSound {s} {s'} (abandoned id token done run) sound =
      abandon-IsSound p c id token s done s' sound run
  ConfirmationStep-IsSound {s} {s'} (removed destination run) sound =
      rw (sym run) (remove-IsSound p c destination s sound)

  -- From a sound store, over any run of beginnings, leasings, renewals, reschedulings, abandonments and removals of
  -- confirmations: each stored confirmation stands under its own id and is the one that the entry of
  -- its destination names, each entry names a stored confirmation of that destination, and no id is
  -- stored that is still to be given.
  pub ConfirmationRun-IsSound :
      {s s' : Store} → ConfirmationRun p c s s' → IsSound p c s → IsSound p c s'
  ConfirmationRun-IsSound no_step sound = sound
  ConfirmationRun-IsSound (more_step run step) sound =
      ConfirmationStep-IsSound step (ConfirmationRun-IsSound run sound)
