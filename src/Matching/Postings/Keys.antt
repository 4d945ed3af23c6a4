-- ===== src/Matching/Postings/Keys.antt =====
-- The keys of a subscription contain the one under which a matching event looks for it.
use disaster_alert.Prelude.{
  ℕ, zero, suc, ◌+◌, ◌<◌, ◌≤◌, ◌⊎◌, ◌≡◌, ◌↔◌, refl, Bool, true, ◌||◌, Option, none, some, List, [],
  ◌∷◌, ◌==◌, ==_iff, any, map, find?, Bool-cases, Option-cases, inl, inr, arith, ap, sym, ◌∙◌,
}
use disaster_alert.Prelude.Finds.{any-append}
use disaster_alert.Event.Key.{category_eq_iff}
use disaster_alert.Event.{DisasterCategory, category_eq}
use disaster_alert.Storage.Keyspace.{text_before}
use disaster_alert.Matching.{
  CompiledSubscription, CompiledRule, CompiledTarget, has_bit, bit, accepts_source,
}
use disaster_alert.Matching.Postings.{
  MatchPostingKey, encode_key, source_eq, key_eq, bits_from, source_ids_in_mask, posting_sources,
  posting, target_keys, source_keys, rule_keys, insert_key, sort_keys, dedup_after, dedup,
  for_subscription, posting_block,
}

any-insert_key :
    (test : MatchPostingKey → Bool) (key : MatchPostingKey) (keys : List MatchPostingKey)
    → any test (insert_key key keys) ≡ (test key || any test keys)
unfolding any insert_key
any-insert_key test key [] = refl
any-insert_key test key (k ∷ keys) =
    elim (Bool-cases (text_before (encode_key k) (encode_key key))) [
      | inl before ↦
          rw (before, any-insert_key test key keys) (or_swap (test k) (test key) (any test keys))
      | inr after ↦ rw after refl
    ]
  where
    or_swap : (p m n : Bool) → (p || (m || n)) ≡ (m || (p || n))
    or_swap p m n = ground arith

any-sort_keys :
    (test : MatchPostingKey → Bool) (keys : List MatchPostingKey)
    → any test (sort_keys keys) ≡ any test keys
unfolding any sort_keys
any-sort_keys test [] = refl
any-sort_keys test (key ∷ keys) =
    any-insert_key test key (sort_keys keys) ∙ ap (λ b. test key || b) (any-sort_keys test keys)

source_eq_iff : (a b : Option ℕ) → (source_eq a b ≡ true) ↔ (a ≡ b)
unfolding source_eq
source_eq_iff none none = ground arith
source_eq_iff none (some n) = ground arith
source_eq_iff (some m) none = ground arith
source_eq_iff (some m) (some n) = ground arith

key_eq_iff : (a b : MatchPostingKey) → (key_eq a b ≡ true) ↔ (a ≡ b)
unfolding key_eq
key_eq_iff a b =
    ground (arith, category_eq_iff a.category b.category, source_eq_iff a.source b.source)

module _ (test : MatchPostingKey → Bool) where
  any-dedup_after :
      (previous : MatchPostingKey) (keys : List MatchPostingKey)
      → (test previous || any test (dedup_after previous keys)) ≡ (test previous || any test keys)
  unfolding any dedup_after
  any-dedup_after previous [] = refl
  any-dedup_after previous (key ∷ keys) = elim (Bool-cases (key_eq key previous)) [
    | inl same ↦ rw same (
        any-dedup_after previous keys
        ∙ or_same (test previous) (test key) (any test keys)
            (ap test ((key_eq_iff key previous).0 same)))
    | inr differ ↦ rw differ (ap (λ b. test previous || b) (any-dedup_after key keys))
  ]
    where
      or_same : (p q r : Bool) → q ≡ p → (p || r) ≡ (p || (q || r))
      or_same p q r e = ground (arith, e)

  any-dedup : (keys : List MatchPostingKey) → any test (dedup keys) ≡ any test keys
  unfolding any dedup
  any-dedup [] = refl
  any-dedup (key ∷ keys) = any-dedup_after key keys

or_true : (p q : Bool) → (p || (q || true)) ≡ true
or_true p q = ground arith

or_true_right : (p : Bool) → (p || true) ≡ true
or_true_right p = ground arith

some-rule : (r rule : CompiledRule) → some r ≡ some rule → r ≡ rule
some-rule r rule h = ground (arith, h)

-- The broad key of a block of subscriptions.
abbrev pub broad : DisasterCategory → Option ℕ → ℕ → MatchPostingKey
broad category source id_block = record {
  category = category;
  source = source;
  kind = 0;
  value = 0;
  id_block = id_block;
}

abbrev pub has_key : MatchPostingKey → List MatchPostingKey → Bool
has_key key keys = any (λ k. key_eq k key) keys

abbrev has_source : Option ℕ → List (Option ℕ) → Bool
has_source source sources = any (λ s. source_eq s source) sources

module _ (category : DisasterCategory) (id_block : ℕ) (targets : List CompiledTarget)
    (source : Option ℕ) where
  source_keys-broad :
      (sources : List (Option ℕ))
      → has_source source sources ≡ true
      → has_key (broad category source id_block) (source_keys category id_block targets sources)
        ≡ true
  unfolding any source_keys posting
  source_keys-broad [] h = absurd (ground (arith, h))
  source_keys-broad (s ∷ sources) h = elim (Bool-cases (source_eq s source)) [
    | inl same ↦
        rw
          ((key_eq_iff (broad category s id_block) (broad category source id_block)).1
            (ap (λ t. broad category t id_block) ((source_eq_iff s source).0 same)))
          refl
    | inr differ ↦
        let ih = source_keys-broad sources (rw differ at h) in
        rw
          (
            any-append (λ k. key_eq k (broad category source id_block))
                (target_keys category s id_block targets)
                (source_keys category id_block targets sources),
            ih,
          )
          (or_true _ _)
  ]

  rule_keys-broad :
      (rules : List CompiledRule) (rule : CompiledRule)
      → find? (λ (r : CompiledRule). category_eq r.category category) rules ≡ some rule
      → has_source source (posting_sources rule) ≡ true
      → has_key (broad category source id_block) (rule_keys id_block targets rules) ≡ true
  unfolding find? rule_keys
  rule_keys-broad [] rule h k = absurd (ground (arith, h))
  rule_keys-broad (r ∷ rules) rule h k =
      any-append (λ key. key_eq key (broad category source id_block))
        (source_keys r.category id_block targets (posting_sources r))
        (rule_keys id_block targets rules)
      ∙ elim (Bool-cases (category_eq r.category category)) [
        | inl same ↦
            let found : r ≡ rule = some-rule r rule (rw same at h) in
            rw ((category_eq_iff r.category category).0 same)
              (rw (source_keys-broad (posting_sources r) (rw⁻¹ (sym found) k)) refl)
        | inr other ↦ rw (rule_keys-broad rules rule (rw other at h) k) (or_true_right _)
      ]

abbrev names : ℕ → List ℕ → Bool
names n ns = any (λ m. m == n) ns

bits_from-names :
    (mask place lo n : ℕ)
    → has_bit mask place ≡ true
    → lo ≤ place
    → place < lo + n
    → names (place + 1) (bits_from mask lo n) ≡ true
unfolding any bits_from
bits_from-names mask place lo zero set low high = absurd (omega (arith, low, high))
bits_from-names mask place lo (suc n) set low high = elim (Bool-cases (lo == place)) [
  | inl here ↦
      let held : has_bit mask lo ≡ true = ap (has_bit mask) ((==_iff lo place).0 here) ∙ set in
      rw held (ground (arith, here))
  | inr later ↦
      let ih =
        bits_from-names mask place (lo + 1) n set (ground (arith, low, later))
          (omega (arith, high)) in
      elim (Bool-cases (has_bit mask lo)) [
        | inl held ↦ rw (held, ih) (or_true_right _)
        | inr clear ↦ rw clear ih
      ]
]

has_source-map : (n : ℕ) (ns : List ℕ) → has_source (some n) (map some ns) ≡ names n ns
unfolding any source_eq
has_source-map n [] = refl
has_source-map n (m ∷ ns) = ap (λ b. (m == n) || b) (has_source-map n ns)

-- The key is under the event's source or, for all sources, under none.
abbrev pub Under : ℕ → Option ℕ → Type 0
Under source s = (s ≡ some source) ⊎ (s ≡ none)

bit-place : (source place : ℕ) → bit source ≡ some place → (source ≡ place + 1) × (place < 64)
unfolding bit
bit-place zero place h = absurd (ground (arith, h))
bit-place (suc n) place h = ground (arith, h)

none_found : has_source none (none ∷ []) ≡ true
unfolding any source_eq
none_found = refl

posting_sources-has :
    (rule : CompiledRule) (source : ℕ)
    → accepts_source rule source ≡ true
    → (s : Option ℕ) × Under source s × (has_source s (posting_sources rule) ≡ true)
unfolding posting_sources source_ids_in_mask accepts_source
posting_sources-has rule source h = elim (Bool-cases rule.wildcard_source) [
  | inl wild ↦ (none, inr refl, rw (posting_sources, wild) none_found)
  | inr narrow ↦ elim (Option-cases (bit source)) [
    | inl unknown ↦ absurd (ground (arith, rw (narrow, unknown) at h))
    | inr (place, known) ↦
        let (same, low) = bit-place source place known in
        (
          some source,
          inl refl,
          rw (posting_sources, narrow)
              (has_source-map source (source_ids_in_mask rule.source_mask)
                ∙ rw same (
                    bits_from-names rule.source_mask place 0 64 (rw (narrow, known) at h)
                      (omega arith) (omega (arith, low)))),
        )
  ]
]

-- A subscription whose first rule for a category accepts a source has the broad key of that category
-- in its block, under that source or under none.
pub for_subscription-broad :
    (subscription : CompiledSubscription) (category : DisasterCategory) (source : ℕ)
    (rule : CompiledRule)
    → find? (λ (r : CompiledRule). category_eq r.category category) subscription.rules ≡ some rule
    → accepts_source rule source ≡ true
    → (s : Option ℕ) × Under source s
      × (has_key
            (broad category s (posting_block subscription.subscription_id))
            (for_subscription subscription)
          ≡ true)
unfolding for_subscription
for_subscription-broad subscription category source rule found accepted =
    let (s, under, has) = posting_sources-has rule source accepted in
    let block = posting_block subscription.subscription_id in
    let keys = rule_keys block subscription.targets subscription.rules in
    let test : MatchPostingKey → Bool = λ k. key_eq k (broad category s block) in
    (
      s,
      under,
      any-dedup test (sort_keys keys)
          ∙ (any-sort_keys test keys
              ∙ rule_keys-broad category block subscription.targets s subscription.rules rule found
                  has),
    )
