-- ===== src/Subscription/Confirmations/Leasing.antt =====
-- src/subscriptions/manager.rs: `lease_due_confirmations`.
--
-- An error leaves the writes that came before it.
use disaster_alert.Prelude.{
  ℕ, ◌+◌, ◌^◌, Bool, true, false, not, none, some, List, [], ◌∷◌, ◌++◌, leb, if◌then◌else◌, length,
}
use disaster_alert.Prelude.Int.{ℤ, leb_ℤ, saturating_sub}
use disaster_alert.Event.Digest.{Platform}
use disaster_alert.Storage.{Store, Error, lease_exhausted, Result, ok, err}
use disaster_alert.Storage.Confirmations.{replace_confirmation, confirmation_records}
use disaster_alert.Subscription.Confirmations.{
  ConfirmationState, ready, leased, ConfirmationOperation, LeasedSubscriptionConfirmation,
  ConfirmationCodec, lease_of, confirmation_token, lease_end, decode_all,
}

-- What is done with one operation of the loop.
pub data Visit : Type 0 where
  passed : List LeasedSubscriptionConfirmation → Store → Visit
  stopped : Visit
  failed : Error → Visit

unfoldable pub is_due : ℤ → ConfirmationState → ConfirmationOperation → Bool
is_due now_ms ready op = leb_ℤ op.due_at_ms now_ms
is_due now_ms leased op = elim op.lease_until_ms [ none ↦ false | some until ↦ leb_ℤ until now_ms ]

unfoldable pub swapped : List LeasedSubscriptionConfirmation → Result (Bool × Store) → Visit
swapped leases (err e) = failed e
swapped leases (ok (true, s)) = passed leases s
swapped leases (ok (false, s)) = passed [] s

module _ (p : Platform) (c : ConfirmationCodec) (now_ms lease_for_ms : ℤ) where
  -- The next generation of the lease.
  unfoldable pub next_lease : ConfirmationOperation → ConfirmationOperation
  unfolding confirmation_token lease_end
  next_lease op = record op {
    state = leased;
    lease_until_ms = some (lease_end now_ms lease_for_ms);
    lease_token = some (confirmation_token p op.id (op.lease_generation + 1));
    lease_generation = op.lease_generation + 1;
  }

  -- An operation that is to be leased.
  unfoldable pub lease_one : ConfirmationOperation → Store → Visit
  unfolding next_lease replace_confirmation swapped lease_of
  lease_one op s =
      if leb (2 ^ 64) (op.lease_generation + 1)
      then failed lease_exhausted
      else swapped
          (lease_of (next_lease op) (confirmation_token p op.id (op.lease_generation + 1)) ∷ [])
          (replace_confirmation p op.id (c.encode_record op)
            (some (c.encode_record (next_lease op))) none s)

  module _ (max_age_ms : ℤ) (limit : ℕ) where
    unfoldable pub visit : ℕ → ConfirmationOperation → Store → Visit
    unfolding saturating_sub replace_confirmation swapped is_due lease_one
    visit count op s =
        if leb_ℤ max_age_ms (saturating_sub now_ms op.created_at_ms)
        then swapped [] (
            replace_confirmation p op.id (c.encode_record op) none
              (some op.subscription.destination) s)
        else if not (is_due now_ms op.state op)
        then passed [] s
        else if leb limit count
        then stopped
        else lease_one op s

    unfoldable pub lease_all :
        List LeasedSubscriptionConfirmation
        → List ConfirmationOperation
        → Store
        → Result (List LeasedSubscriptionConfirmation) × Store
    unfolding visit
    lease_all leases [] s = (ok leases, s)
    lease_all leases (op ∷ ops) s = elim (visit (length leases) op s) [
      | passed more s' ↦ lease_all (leases ++ more) ops s'
      | stopped ↦ (ok leases, s)
      | failed e ↦ (err e, s)
    ]

    unfoldable pub lease_due_confirmations :
        Store → Result (List LeasedSubscriptionConfirmation) × Store
    unfolding decode_all confirmation_records lease_all
    lease_due_confirmations s = elim (decode_all c (confirmation_records s)) [
      | err e ↦ (err e, s)
      | ok ops ↦ lease_all [] ops s
    ]
