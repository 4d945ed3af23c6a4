-- ===== src/Storage/Confirmations.antt =====
-- src/storage/fjall.rs: the pending confirmations of subscriptions, one for each destination.
--
-- A confirmation is stored as the bytes that the caller gives. `meta` holds them under the prefixes
-- `confirmation:` and `confirmation-destination:`; here each prefix is a map of its own.
use disaster_alert.Prelude.{ℕ, Bool, true, false, Option, none, some, List, ◌∷◌, ◌++◌, ◌==◌, map}
use disaster_alert.Text.{text, text_eq}
use disaster_alert.Event.Digest.{Platform, as_bytes}
use disaster_alert.Subscription.{DestinationId}
use disaster_alert.Storage.{Store, confirmation_mismatch, Result, ok, err}
use disaster_alert.Storage.Keyspace.{get, insert, remove, nat_key, text_key}

unfoldable pub destination_digest : Platform → DestinationId → List ℕ
unfolding as_bytes
destination_digest p destination = p.sha256 (
    as_bytes (text "disaster-alert:destination:v1")
    ++ (0 ∷ (as_bytes destination.base_url ++ (0 ∷ as_bytes destination.device_key))))

unfoldable pub drop_previous : Option ℕ → Store → Store
unfolding remove
drop_previous none s = s
drop_previous (some previous) s = record s { confirmations = remove s.confirmations previous }

module _ (p : Platform) where
  unfoldable pub begin_confirmation : ℕ → DestinationId → List ℕ → Store → Store
  unfolding get insert destination_digest drop_previous
  begin_confirmation id destination value s =
      let key = destination_digest p destination in
      let w = drop_previous (get s.confirmation_destinations key) s in
      record w {
        confirmations = insert w.confirmations id value;
        confirmation_destinations = insert w.confirmation_destinations key id;
      }

  -- The removal of a confirmation that is stored as expected.
  unfoldable pub remove_confirmation : ℕ → Option DestinationId → Store → Result Store
  unfolding get remove destination_digest
  remove_confirmation id none s = ok (record s { confirmations = remove s.confirmations id })
  remove_confirmation id (some destination) s =
      let key = destination_digest p destination in
      let w : Store = record s {
        confirmations = remove s.confirmations id;
        confirmation_destinations = remove s.confirmation_destinations key;
      } in
      elim (get s.confirmation_destinations key) [
        | none ↦ err confirmation_mismatch
        | some stored ↦ elim (stored == id) [ true ↦ ok w | false ↦ err confirmation_mismatch ]
      ]

  unfoldable pub replace_current :
      ℕ → Option (List ℕ) → Option DestinationId → Store → Result (Bool × Store)
  unfolding insert remove_confirmation
  replace_current id none destination s = elim (remove_confirmation id destination s) [
    | err e ↦ err e
    | ok w ↦ ok (true, w)
  ]
  replace_current id (some replacement) destination s =
      ok (true, record s { confirmations = insert s.confirmations id replacement })

  -- Compare and swap.
  unfoldable pub replace_confirmation :
      ℕ → List ℕ → Option (List ℕ) → Option DestinationId → Store → Result (Bool × Store)
  unfolding get text_eq replace_current
  replace_confirmation id expected replacement destination s = elim (get s.confirmations id) [
    | none ↦ ok (false, s)
    | some current ↦ elim (text_eq current expected) [
      | false ↦ ok (false, s)
      | true ↦ replace_current id replacement destination s
    ]
  ]

  unfoldable pub remove_confirmation_for_destination : DestinationId → Store → Bool × Store
  unfolding get remove destination_digest
  remove_confirmation_for_destination destination s =
      let key = destination_digest p destination in
      elim (get s.confirmation_destinations key) [
        | none ↦ (false, s)
        | some id ↦ (
          true,
          record s {
            confirmations = remove s.confirmations id;
            confirmation_destinations = remove s.confirmation_destinations key;
          },
        )
      ]

unfoldable pub confirmation_record : Store → ℕ → Option (List ℕ)
unfolding get
confirmation_record s id = get s.confirmations id

unfoldable pub confirmation_records : Store → List (List ℕ)
confirmation_records s = map (λ (entry : ℕ × List ℕ). entry.1) s.confirmations
