-- ===== src/Subscription/Confirmations/Index.antt =====
-- The index of confirmations by destination over the operations of the store.
use mathlib.Core.Path.{subst}
use disaster_alert.Prelude.{
  ℕ, ◌≡◌, refl, Option, none, some, Bool-cases, Option-cases, inl, inr, arith, ap, ◌∙◌, ◌==◌,
  ==_iff, List,
}
use disaster_alert.Text.{text_eq, text_eq_iff}
use disaster_alert.Event.Digest.{Platform}
use disaster_alert.Storage.{Store}
use disaster_alert.Storage.Keyspace.{get, remove, nat_key, text_key}
use disaster_alert.Storage.Pointwise.{
  put_at, drop_at, get-insert_all, get-remove_all, put_at-drop_at,
}
use disaster_alert.Storage.Confirmations.{
  destination_digest, drop_previous, begin_confirmation, remove_confirmation_for_destination,
}
use disaster_alert.Subscription.{DestinationId}
use disaster_alert.Subscription.Confirmations.{
  ConfirmationOperation, ConfirmationCodec, without_retired, decode_record,
  decode_record-encode_record,
}

module _ (p : Platform) (c : ConfirmationCodec) where
  abbrev pub digest_of : ConfirmationOperation → List ℕ
  digest_of op = destination_digest p op.subscription.destination

  -- Each stored confirmation is the one that its destination's entry names, and no entry names more.
  pub record IsIndexed (confirmations : ℕ → Option (List ℕ)) (destinations : List ℕ → Option ℕ)
      : Type 0 where
    pub named :
        (id : ℕ) (bytes : List ℕ)
        → confirmations id ≡ some bytes
        → (op : ConfirmationOperation) × (decode_record c bytes ≡ some op)
          × (op.id ≡ id)
          × (destinations (digest_of op) ≡ some id)
    pub stored :
        (key : List ℕ) (id : ℕ)
        → destinations key ≡ some id
        → (bytes : List ℕ) × (op : ConfirmationOperation) × (confirmations id ≡ some bytes)
          × (decode_record c bytes ≡ some op)
          × (digest_of op ≡ key)

  module _ (f : ℕ → Option (List ℕ)) (g : List ℕ → Option ℕ) (inv : IsIndexed f g) where
    pub drop-IsIndexed :
        (key : List ℕ) (id : ℕ) → g key ≡ some id → IsIndexed (drop_at f id) (drop_at g key)
    drop-IsIndexed key id here = record {
      named = λ j bytes h.
          let (op, decoded, same, entry) = inv.named j bytes (ground (arith, h)) in
          (op, decoded, same, ground (arith, entry, here, h, text_eq_iff key (digest_of op)));
      stored = λ other j h.
          let (bytes, op, there, decoded, digest) = inv.stored other j (ground (arith, h)) in
          let (_, op', there', decoded', digest') = inv.stored key id here in
          (
            bytes,
            op,
            ground (
              arith,
              there,
              there',
              decoded,
              decoded',
              digest,
              digest',
              h,
              text_eq_iff key other,
            ),
            decoded,
            digest,
          );
    }

    put-IsIndexed :
        (op : ConfirmationOperation)
        → f op.id ≡ none
        → g (digest_of op) ≡ none
        → IsIndexed (put_at f op.id (c.encode_record op)) (put_at g (digest_of op) op.id)
    unfolding without_retired
    put-IsIndexed op new free = record {
      named = λ j bytes h. elim (Bool-cases (op.id == j)) [
        | inl same ↦ (
          without_retired op,
          ground (arith, h, same, decode_record-encode_record c op),
          (==_iff _ _).0 same,
          ground (arith, same, text_eq_iff (digest_of op) (digest_of op)),
        )
        | inr other ↦
            let (q, decoded, same, entry) = inv.named j bytes (ground (arith, h, other)) in
            (
              q,
              decoded,
              same,
              ground (arith, entry, free, text_eq_iff (digest_of op) (digest_of q)),
            )
      ];
      stored = λ key j h. elim (Bool-cases (text_eq (digest_of op) key)) [
        | inl same ↦ (
          c.encode_record op,
          without_retired op,
          ground (arith, h, same),
          decode_record-encode_record c op,
          (text_eq_iff _ _).0 same,
        )
        | inr other ↦
            let (bytes, q, there, decoded, digest) = inv.stored key j (ground (arith, h, other)) in
            (bytes, q, ground (arith, there, new), decoded, digest)
      ];
    }

    pub replace-IsIndexed :
        (op op' : ConfirmationOperation) (bytes : List ℕ)
        → f op.id ≡ some bytes
        → decode_record c bytes ≡ some op
        → op'.id ≡ op.id
        → digest_of op' ≡ digest_of op
        → IsIndexed (put_at f op.id (c.encode_record op')) g
    unfolding without_retired
    replace-IsIndexed op op' bytes here decoded same digest = record {
      named = λ j other h. elim (Bool-cases (op.id == j)) [
        | inl e ↦
            let (q, decoded_q, _, entry) = inv.named op.id bytes here in
            let same_op : op ≡ q = ground (arith, decoded, decoded_q) in
            let same_id : op.id ≡ j = (==_iff _ _).0 e in
            (
              without_retired op',
              ground (arith, h, e, decode_record-encode_record c op'),
              same ∙ same_id,
              ap g (digest ∙ ap digest_of same_op) ∙ (entry ∙ ap some same_id),
            )
        | inr e ↦ inv.named j other (ground (arith, h, e))
      ];
      stored = λ key j h.
          let (old, q, there, decoded_q, digest_q) = inv.stored key j h in
          elim (Bool-cases (op.id == j)) [
            | inl e ↦
                let same_id : op.id ≡ j = (==_iff _ _).0 e in
                let same_bytes : bytes ≡ old = ground (arith, here, there, same_id) in
                let same_op : op ≡ q = ground (arith, decoded, decoded_q, same_bytes) in
                (
                  c.encode_record op',
                  without_retired op',
                  ground (arith, e),
                  decode_record-encode_record c op',
                  digest ∙ (ap digest_of same_op ∙ digest_q),
                )
            | inr e ↦ (old, q, ground (arith, there, e), decoded_q, digest_q)
          ];
    }

  -- The confirmations of a store and their index.
  abbrev pub ConfirmationsIndexed : Store → Type 0
  ConfirmationsIndexed s = IsIndexed (get s.confirmations) (get s.confirmation_destinations)

  pub begin_confirmation-Indexed :
      (op : ConfirmationOperation) (s : Store)
      → ConfirmationsIndexed s
      → get s.confirmations op.id ≡ none
      → ConfirmationsIndexed
          (begin_confirmation p op.id op.subscription.destination (c.encode_record op) s)
  unfolding begin_confirmation drop_previous
  begin_confirmation-Indexed op s inv new =
      elim (Option-cases (get s.confirmation_destinations (digest_of op))) [
        | inl free ↦
            rw
              (
                free,
                get-insert_all s.confirmations op.id (c.encode_record op),
                get-insert_all s.confirmation_destinations (digest_of op) op.id,
              )
              (put-IsIndexed _ _ inv op new free)
        | inr (previous, found) ↦
            rw
              (
                found,
                get-insert_all (remove s.confirmations previous) op.id (c.encode_record op),
                get-remove_all s.confirmations previous,
                get-insert_all s.confirmation_destinations (digest_of op) op.id,
              )
              (subst
                (λ g.
                  IsIndexed
                    (put_at (drop_at (get s.confirmations) previous) op.id (c.encode_record op)) g)
                (put_at-drop_at (digest_of op) (digest_of op) refl (get s.confirmation_destinations)
                  op.id)
                (put-IsIndexed _ _ (drop-IsIndexed _ _ inv (digest_of op) previous found) op
                  (ground (arith, new))
                  (ground (arith, text_eq_iff (digest_of op) (digest_of op)))))
      ]

  pub remove_confirmation_for_destination-Indexed :
      (s : Store) (destination : DestinationId)
      → ConfirmationsIndexed s
      → ConfirmationsIndexed (remove_confirmation_for_destination p destination s).1
  unfolding remove_confirmation_for_destination
  remove_confirmation_for_destination-Indexed s destination inv =
      let key = destination_digest p destination in
      elim (Option-cases (get s.confirmation_destinations key)) [
        | inl free ↦ rw (free, remove_confirmation_for_destination) inv
        | inr (id, found) ↦
            rw
              (
                found,
                remove_confirmation_for_destination,
                get-remove_all s.confirmations id,
                get-remove_all s.confirmation_destinations key,
              )
              (drop-IsIndexed _ _ inv key id found)
      ]
