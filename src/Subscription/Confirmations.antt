-- ===== src/Subscription/Confirmations.antt =====
-- src/subscriptions/manager.rs: leasing the confirmations of subscriptions to workers.
--
-- `ConfirmationCodec` stands for the CBOR library. What the program does when it reads, it drops the
-- rules of retired categories, is in `decode_record`. The operations read a record and swap it for
-- another in two steps; here nothing happens between them.
pub mod Leasing
pub mod Index
pub mod Fencing
pub mod Runs
use disaster_alert.Prelude.{
  ℕ, suc, ◌+◌, ◌^◌, ◌≡◌, refl, Bool, true, false, not, ◌&&◌, ◌||◌, Option, none, some, List, [],
  ◌∷◌, ◌++◌, ◌==◌, ltb, leb, if◌then◌else◌, length, take,
}
use disaster_alert.Prelude.Int.{ℤ, pos, leb_ℤ, max_ℤ, saturating_add, saturating_sub}
use disaster_alert.Text.{Text, text}
use disaster_alert.Event.Digest.{Platform, as_bytes, to_be_bytes}
use disaster_alert.Storage.{
  Store, Error, invalid_subscription, invalid_confirmation, lease_exhausted, Result, ok, err, ◌>>=◌,
  ◌>>◌,
}
use disaster_alert.Storage.Ingest.{next_id}
use disaster_alert.Storage.Correlation.{from_be_bytes}
use disaster_alert.Storage.Confirmations.{
  begin_confirmation, replace_confirmation, confirmation_record, confirmation_records,
}
use disaster_alert.Subscription.{Subscription, stored_alerts}
use disaster_alert.Subscription.Validate.{Urls, Validation, valid, invalid, validate}

pub data ConfirmationState : Type 0 where
  ready leased : ConfirmationState

pub record ConfirmationOperation : Type 0 where
  pub id : ℕ
  pub subscription : Subscription
  pub state : ConfirmationState
  pub due_at_ms : ℤ
  pub lease_until_ms : Option ℤ
  pub lease_token : Option ℕ
  pub lease_generation : ℕ
  pub attempts : ℕ
  pub created_at_ms : ℤ
  pub last_error : Option Text

pub record LeasedSubscriptionConfirmation : Type 0 where
  pub id : ℕ
  pub subscription : Subscription
  pub lease_token : ℕ
  pub attempts : ℕ
  pub created_at_ms : ℤ

-- The CBOR library: what it has written of an operation it reads again.
pub record ConfirmationCodec : Type 0 where
  pub encode_record : ConfirmationOperation → List ℕ
  pub from_reader : List ℕ → Option ConfirmationOperation
  pub from_reader-encode_record :
      (op : ConfirmationOperation) → from_reader (encode_record op) ≡ some op

-- `deserialize_stored_alerts`: an operation that is read has lost its rules of retired categories.
unfoldable pub without_retired : ConfirmationOperation → ConfirmationOperation
unfolding stored_alerts
without_retired op = record op {
  subscription = record op.subscription { alerts = stored_alerts op.subscription.alerts };
}

-- `decode_record`.
unfoldable pub decode_record : ConfirmationCodec → List ℕ → Option ConfirmationOperation
unfolding without_retired
decode_record c bytes = elim (c.from_reader bytes) [
  | none ↦ none
  | some op ↦ some (without_retired op)
]

pub decode_record-encode_record :
    (c : ConfirmationCodec) (op : ConfirmationOperation)
    → decode_record c (c.encode_record op) ≡ some (without_retired op)
unfolding decode_record
decode_record-encode_record c op = rw (decode_record, c.from_reader-encode_record op) refl

-- `leased`.
unfoldable pub lease_of : ConfirmationOperation → ℕ → LeasedSubscriptionConfirmation
lease_of op token = record {
  id = op.id;
  subscription = op.subscription;
  lease_token = token;
  attempts = op.attempts;
  created_at_ms = op.created_at_ms;
}

unfoldable pub confirmation_token : Platform → ℕ → ℕ → ℕ
unfolding as_bytes to_be_bytes from_be_bytes
confirmation_token p id generation = from_be_bytes 0 (
    take 8 (
      p.sha256 (
        as_bytes (text "disaster-alert:confirmation-lease:v1")
        ++ (0 ∷ (to_be_bytes 8 id ++ to_be_bytes 8 generation)))))

unfoldable pub holds_token : ConfirmationOperation → ℕ → Bool
holds_token op token = elim op.lease_token [ none ↦ false | some held ↦ held == token ]

unfoldable pub is_leased : ConfirmationState → Bool
is_leased ready = false
is_leased leased = true

-- `now_ms.saturating_add(lease_for_ms.max(1_000))`.
unfoldable pub lease_end : ℤ → ℤ → ℤ
unfolding saturating_add
lease_end now_ms lease_for_ms = saturating_add now_ms (max_ℤ lease_for_ms (pos 1000))

unfoldable pub validated : Validation → Result (Unit {0})
validated valid = ok tt
validated (invalid reason) = err invalid_subscription

module _ (c : ConfirmationCodec) where
  unfoldable pub confirmation : Store → ℕ → Result (Option ConfirmationOperation)
  unfolding confirmation_record decode_record
  confirmation s id = elim (confirmation_record s id) [
    | none ↦ ok none
    | some bytes ↦ elim (decode_record c bytes) [
      | none ↦ err invalid_confirmation
      | some op ↦ ok (some op)
    ]
  ]

  unfoldable pub decode_all : List (List ℕ) → Result (List ConfirmationOperation)
  decode_all [] = ok []
  decode_all (bytes ∷ more) = elim (decode_record c bytes) [
    | none ↦ err invalid_confirmation
    | some op ↦ decode_all more >>= λ ops. ok (op ∷ ops)
  ]

  -- A change of the operation that holds the token.
  unfoldable pub change_held :
      ℕ
      → ℕ
      → (ConfirmationOperation → Store → Result (Bool × Store))
      → Store
      → Result (Bool × Store)
  unfolding confirmation holds_token
  change_held id token change s = confirmation s id >>= λ found. elim found [
    | none ↦ ok (false, s)
    | some op ↦ elim (holds_token op token) [ true ↦ change op s | false ↦ ok (false, s) ]
  ]

module _ (p : Platform) where
  unfoldable pub first_lease : ℕ → Subscription → ℤ → ℤ → ConfirmationOperation
  unfolding confirmation_token lease_end
  first_lease id subscription now_ms lease_for_ms = record {
    id = id;
    subscription = subscription;
    state = leased;
    due_at_ms = now_ms;
    lease_until_ms = some (lease_end now_ms lease_for_ms);
    lease_token = some (confirmation_token p id 1);
    lease_generation = 1;
    attempts = 0;
    created_at_ms = now_ms;
    last_error = none;
  }

  unfoldable pub begin_lease :
      Urls
      → ConfirmationCodec
      → Subscription
      → ℤ
      → ℤ
      → Store
      → Result (LeasedSubscriptionConfirmation × Store)
  unfolding validate validated next_id first_lease begin_confirmation lease_of
  begin_lease u c subscription now_ms lease_for_ms s = do
    validated (validate u subscription)
    (id, s1) ← next_id (text "confirmation") s
    let op = first_lease id subscription now_ms lease_for_ms
    ok (
      lease_of op (confirmation_token p id 1),
      begin_confirmation p id subscription.destination (c.encode_record op) s1,
    )

unfoldable pub renewed_lease : ℤ → ℤ → ConfirmationOperation → ConfirmationOperation
unfolding lease_end
renewed_lease now_ms lease_for_ms op = record op {
  lease_until_ms = some (lease_end now_ms lease_for_ms);
}

unfoldable pub rescheduled : ℤ → ℤ → Text → ConfirmationOperation → ConfirmationOperation
rescheduled attempted_at_ms due_at_ms error op = record op {
  state = ready;
  due_at_ms = max_ℤ due_at_ms attempted_at_ms;
  lease_until_ms = none;
  lease_token = none;
  attempts = if leb 65535 op.attempts then 65535 else op.attempts + 1;
  last_error = some (take 1024 error);
}

module _ (p : Platform) (c : ConfirmationCodec) where
  renew_held : ℕ → ℤ → ℤ → ConfirmationOperation → Store → Result (Bool × Store)
  unfolding is_leased renewed_lease replace_confirmation
  renew_held id now_ms lease_for_ms op s = elim (is_leased op.state) [
    | false ↦ ok (false, s)
    | true ↦
        replace_confirmation p id (c.encode_record op)
          (some (c.encode_record (renewed_lease now_ms lease_for_ms op))) none s
  ]

  unfoldable pub renew_confirmation_lease : ℕ → ℕ → ℤ → ℤ → Store → Result (Bool × Store)
  unfolding change_held renew_held
  renew_confirmation_lease id token now_ms lease_for_ms =
      change_held c id token (renew_held id now_ms lease_for_ms)

  reschedule_held : ℕ → ℤ → ℤ → Text → ConfirmationOperation → Store → Result (Bool × Store)
  unfolding rescheduled replace_confirmation
  reschedule_held id attempted_at_ms due_at_ms error op =
      replace_confirmation p id (c.encode_record op)
        (some (c.encode_record (rescheduled attempted_at_ms due_at_ms error op))) none

  unfoldable pub reschedule_confirmation : ℕ → ℕ → ℤ → ℤ → Text → Store → Result (Bool × Store)
  unfolding change_held reschedule_held
  reschedule_confirmation id token attempted_at_ms due_at_ms error =
      change_held c id token (reschedule_held id attempted_at_ms due_at_ms error)

  abandon_held : ℕ → ConfirmationOperation → Store → Result (Bool × Store)
  unfolding replace_confirmation
  abandon_held id op =
      replace_confirmation p id (c.encode_record op) none (some op.subscription.destination)

  unfoldable pub abandon_confirmation : ℕ → ℕ → Store → Result (Bool × Store)
  unfolding change_held abandon_held
  abandon_confirmation id token = change_held c id token (abandon_held id)
