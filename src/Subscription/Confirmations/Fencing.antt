-- ===== src/Subscription/Confirmations/Fencing.antt =====
-- A worker whose lease is over can no longer change the confirmation.
use disaster_alert.Prelude.{
  ℕ, ◌+◌, ◌^◌, ◌≡◌, ◌≢◌, refl, Bool, true, false, none, some, List, [], ◌∷◌, leb, Bool-cases,
  Option-cases, inl, inr, arith, ap, sym, ◌∙◌,
}
use disaster_alert.Prelude.Int.{ℤ}
use disaster_alert.Text.{Text}
use disaster_alert.Event.Digest.{Platform}
use disaster_alert.Storage.{Store, Result, ok, err}
use disaster_alert.Storage.Keyspace.{
  get, insert, nat_key, text_key, get-insert_self, get-remove_self,
}
use disaster_alert.Storage.Confirmations.{
  replace_current, replace_confirmation, remove_confirmation, confirmation_record,
  destination_digest,
}
use disaster_alert.Subscription.{DestinationId}
use disaster_alert.Subscription.Confirmations.{
  ConfirmationOperation, ConfirmationCodec, without_retired, decode_record,
  decode_record-encode_record, LeasedSubscriptionConfirmation, confirmation, holds_token,
  rescheduled, renew_confirmation_lease, reschedule_confirmation, abandon_confirmation,
  reschedule_held, abandon_held, confirmation_token, lease_of,
}
use disaster_alert.Subscription.Confirmations.Leasing
use disaster_alert.Subscription.Confirmations.Leasing.{Visit, passed, lease_one, next_lease}
use disaster_alert.Subscription.Confirmations.Runs.{replaced-cases, held-cases}

swapped-one :
    (lease : LeasedSubscriptionConfirmation) (r : Result (Bool × Store))
    (found : LeasedSubscriptionConfirmation) (s' : Store)
    → Leasing.swapped (lease ∷ []) r ≡ passed (found ∷ []) s'
    → (lease ≡ found) × (r ≡ ok (true, s'))
unfolding Leasing.swapped
swapped-one lease (err e) found s' h = absurd (ground (arith, h))
swapped-one lease (ok (true, s)) found s' h = (ground (arith, h), ground (arith, h))
swapped-one lease (ok (false, s)) found s' h = absurd (ground (arith, h))

module _ (p : Platform) (c : ConfirmationCodec) where
  -- Each of the holder's operations is refused, and changes nothing.
  abbrev pub Fenced : ℕ → ℕ → Store → Type 0
  Fenced id token s =
      ((now_ms lease_for_ms : ℤ)
        → renew_confirmation_lease p c id token now_ms lease_for_ms s ≡ ok (false, s))
      × ((attempted_at_ms due_at_ms : ℤ) (error : Text)
          → reschedule_confirmation p c id token attempted_at_ms due_at_ms error s ≡ ok (false, s))
      × (abandon_confirmation p c id token s ≡ ok (false, s))

  gone-Fenced : (id token : ℕ) (s : Store) → get s.confirmations id ≡ none → Fenced id token s
  unfolding renew_confirmation_lease reschedule_confirmation abandon_confirmation confirmation
      confirmation_record
  gone-Fenced id token s h =
      (λ now_ms lease_for_ms. ground (arith, h), λ a d e. ground (arith, h), ground (arith, h))

  other-Fenced :
      (id token : ℕ) (s : Store) (op : ConfirmationOperation)
      → get s.confirmations id ≡ some (c.encode_record op)
      → holds_token op token ≡ false
      → Fenced id token s
  unfolding renew_confirmation_lease reschedule_confirmation abandon_confirmation confirmation
      confirmation_record decode_record without_retired holds_token
  other-Fenced id token s op h other =
      let read = decode_record-encode_record c op in
      (
        λ now_ms lease_for_ms. ground (arith, h, read, other),
        λ a d e. ground (arith, h, read, other),
        ground (arith, h, read, other),
      )

  -- The three ways in which a token is given up or taken away.
  pub data Revoked (id token : ℕ) (s s' : Store) : Type 0 where
    by_reschedule :
        (attempted_at_ms due_at_ms : ℤ) (error : Text)
        → reschedule_confirmation p c id token attempted_at_ms due_at_ms error s ≡ ok (true, s')
        → Revoked id token s s'
    by_abandonment : abandon_confirmation p c id token s ≡ ok (true, s') → Revoked id token s s'
    by_lease :
        (op : ConfirmationOperation) (now_ms lease_for_ms : ℤ)
        (lease : LeasedSubscriptionConfirmation)
        → op.id ≡ id
        → lease_one p c now_ms lease_for_ms op s ≡ passed (lease ∷ []) s'
        → lease.lease_token ≢ token
        → Revoked id token s s'

  swapped-in :
      (id : ℕ) (expected value : List ℕ) (s s' : Store)
      → replace_confirmation p id expected (some value) none s ≡ ok (true, s')
      → get s'.confirmations id ≡ some value
  unfolding replace_current
  swapped-in id expected value s s' run =
      elim (replaced-cases p c id expected (some value) none s true s' run) [
        | inl (bad, _) ↦ absurd (ground (arith, bad))
        | inr (_, run1) ↦
            ap (λ (t : Store). get t.confirmations id)
              (sym (
                let e : record s { confirmations = insert s.confirmations id value } ≡ s' =
                  ground (arith, run1) in
                e))
            ∙ get-insert_self s.confirmations id value
      ]

  removed-gone :
      (id : ℕ) (expected : List ℕ) (destination : DestinationId) (s s' : Store)
      → replace_confirmation p id expected none (some destination) s ≡ ok (true, s')
      → get s'.confirmations id ≡ none
  unfolding replace_current remove_confirmation
  removed-gone id expected destination s s' run =
      elim (replaced-cases p c id expected none (some destination) s true s' run) [
        | inl (bad, _) ↦ absurd (ground (arith, bad))
        | inr (_, run1) ↦
            elim (Option-cases
              (get s.confirmation_destinations (destination_digest p destination))) [
                | inl free ↦ absurd (ground (arith, free, run1))
                | inr (stored, there) ↦
                    ground (arith, there, run1, get-remove_self s.confirmations id)
              ]
      ]

  rescheduled-Fenced :
      (id token : ℕ) (attempted_at_ms due_at_ms : ℤ) (error : Text) (s s' : Store)
      → reschedule_confirmation p c id token attempted_at_ms due_at_ms error s ≡ ok (true, s')
      → Fenced id token s'
  unfolding reschedule_confirmation reschedule_held rescheduled holds_token
  rescheduled-Fenced id token attempted_at_ms due_at_ms error s s' run =
      elim (held-cases p c id token (reschedule_held p c id attempted_at_ms due_at_ms error) s true
        s' run) [
          | inl (bad, _) ↦ absurd (ground (arith, bad))
          | inr (op, _, _, run1) ↦
              other-Fenced id token s' (rescheduled attempted_at_ms due_at_ms error op)
                (swapped-in id _ _ s s' run1) refl
        ]

  abandoned-Fenced :
      (id token : ℕ) (s s' : Store)
      → abandon_confirmation p c id token s ≡ ok (true, s')
      → Fenced id token s'
  unfolding abandon_confirmation abandon_held
  abandoned-Fenced id token s s' run =
      elim (held-cases p c id token (abandon_held p c id) s true s' run) [
        | inl (bad, _) ↦ absurd (ground (arith, bad))
        | inr (op, _, _, run1) ↦
            gone-Fenced id token s' (removed-gone id _ op.subscription.destination s s' run1)
      ]

  leased-Fenced :
      (token : ℕ) (op : ConfirmationOperation) (now_ms lease_for_ms : ℤ)
      (lease : LeasedSubscriptionConfirmation) (s s' : Store)
      → lease_one p c now_ms lease_for_ms op s ≡ passed (lease ∷ []) s'
      → lease.lease_token ≢ token
      → Fenced op.id token s'
  unfolding lease_one next_lease holds_token lease_of
  leased-Fenced token op now_ms lease_for_ms lease s s' run differs =
      elim (Bool-cases (leb (2 ^ 64) (op.lease_generation + 1))) [
        | inl full ↦ absurd (ground (arith, full, run))
        | inr free ↦
            let next = next_lease p c now_ms lease_for_ms op in
            let (e, run1) =
              swapped-one (lease_of next (confirmation_token p op.id (op.lease_generation + 1))) _
                lease s' (rw (free, lease_one) at run) in
            other-Fenced op.id token s' next (swapped-in op.id _ _ s s' run1)
              (ground (arith, differs, e))
      ]

  -- After a worker has rescheduled or abandoned a confirmation, and after the confirmation was leased
  -- with another token, the worker's token renews, reschedules and abandons nothing, and each of these
  -- leaves the store as it is.
  pub Revoked-Fenced : (id token : ℕ) (s s' : Store) → Revoked id token s s' → Fenced id token s'
  Revoked-Fenced id token s s' (by_reschedule attempted due error run) =
      rescheduled-Fenced id token attempted due error s s' run
  Revoked-Fenced id token s s' (by_abandonment run) = abandoned-Fenced id token s s' run
  Revoked-Fenced id token s s' (by_lease op now_ms lease_for_ms lease e run differs) =
      rw (sym e) (leased-Fenced token op now_ms lease_for_ms lease s s' run differs)
