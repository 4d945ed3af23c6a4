-- ===== src/Matching/Postings.antt =====
-- src/subscriptions/compiled.rs: the keys under which a subscription is found, in blocks of ids.
pub mod Ids
pub mod Keys
use disaster_alert.Prelude.{
  ℕ, zero, suc, ◌+◌, ◌-◌, ◌*◌, ◌/◌, ◌%◌, ◌^◌, Bool, true, false, not, ◌&&◌, ◌||◌, Option, none,
  some, List, [], ◌∷◌, ◌++◌, ◌==◌, ltb, if◌then◌else◌, map, filter,
}
use disaster_alert.Event.{DisasterCategory, category_eq}
use disaster_alert.Event.Digest.{to_be_bytes}
use disaster_alert.Storage.{category_code}
use disaster_alert.Storage.Keyspace.{text_before}
use disaster_alert.Matching.{CompiledSubscription, CompiledTarget, CompiledRule, has_bit}

-- `POSTING_ID_BITS`.
abbrev pub posting_id_bits : ℕ
posting_id_bits = 16

-- `self.0 >> POSTING_ID_BITS` and `self.0 & POSTING_ID_MASK`.
unfoldable pub posting_block : ℕ → ℕ
posting_block id = id / 2 ^ posting_id_bits

unfoldable pub posting_offset : ℕ → ℕ
posting_offset id = id % 2 ^ posting_id_bits

-- The offset fits into the bits below those of the block, so that `|` adds it.
unfoldable pub from_posting : ℕ → ℕ → Option ℕ
from_posting block offset =
    if ltb (2 ^ posting_id_bits - 1) offset || ltb ((2 ^ 64 - 1) / 2 ^ posting_id_bits) block
    then none
    else some (block * 2 ^ posting_id_bits + offset)

pub record MatchPostingKey : Type 0 where
  pub category : DisasterCategory
  pub source : Option ℕ
  pub kind : ℕ
  pub value : ℕ
  pub id_block : ℕ

source_number : Option ℕ → ℕ
source_number none = 0
source_number (some n) = n

-- `MatchPostingKey::encode`.
unfoldable pub encode_key : MatchPostingKey → List ℕ
unfolding category_code to_be_bytes source_number
encode_key k =
    category_code k.category ∷ k.kind ∷ to_be_bytes 2 (source_number k.source)
    ++ to_be_bytes 8 k.value
    ++ to_be_bytes 8 k.id_block

source_eq : Option ℕ → Option ℕ → Bool
source_eq none none = true
source_eq none (some n) = false
source_eq (some m) none = false
source_eq (some m) (some n) = m == n

unfoldable pub key_eq : MatchPostingKey → MatchPostingKey → Bool
unfolding category_eq source_eq
key_eq a b =
    category_eq a.category b.category
    && source_eq a.source b.source
    && a.kind == b.kind
    && a.value == b.value
    && a.id_block == b.id_block

bits_from : ℕ → ℕ → ℕ → List ℕ
unfolding has_bit
bits_from mask place zero = []
bits_from mask place (suc n) =
    let later = bits_from mask (place + 1) n in
    if has_bit mask place then (place + 1) ∷ later else later

-- The numbers from 1 to 64 whose bit is set.
unfoldable pub source_ids_in_mask : ℕ → List ℕ
unfolding bits_from
source_ids_in_mask mask = bits_from mask 0 64

posting_sources : CompiledRule → List (Option ℕ)
unfolding source_ids_in_mask
posting_sources rule =
    if rule.wildcard_source then none ∷ [] else map some (source_ids_in_mask rule.source_mask)

module _ (category : DisasterCategory) (source : Option ℕ) (id_block : ℕ) where
  posting : ℕ → ℕ → MatchPostingKey
  posting kind value = record {
    category = category;
    source = source;
    kind = kind;
    value = value;
    id_block = id_block;
  }

  -- The three cells of a target have the kinds 1, 2 and 3.
  cell_keys : ℕ → List ℕ → List MatchPostingKey
  unfolding posting
  cell_keys kind [] = []
  cell_keys kind (cell ∷ cells) = posting kind cell ∷ cell_keys (kind + 1) cells

  target_keys : List CompiledTarget → List MatchPostingKey
  unfolding cell_keys
  target_keys [] = []
  target_keys (target ∷ targets) =
      cell_keys 1 target.h3_cells ++ map (posting 4) target.region_ids ++ target_keys targets

source_keys : DisasterCategory → ℕ → List CompiledTarget → List (Option ℕ) → List MatchPostingKey
unfolding posting target_keys
source_keys category id_block targets [] = []
source_keys category id_block targets (source ∷ sources) =
    posting category source id_block 0 0 ∷ target_keys category source id_block targets
    ++ source_keys category id_block targets sources

rule_keys : ℕ → List CompiledTarget → List CompiledRule → List MatchPostingKey
unfolding source_keys posting_sources
rule_keys id_block targets [] = []
rule_keys id_block targets (rule ∷ rules) =
    source_keys rule.category id_block targets (posting_sources rule)
    ++ rule_keys id_block targets rules

insert_key : MatchPostingKey → List MatchPostingKey → List MatchPostingKey
unfolding encode_key text_before
insert_key key [] = key ∷ []
insert_key key (k ∷ ks) =
    let later = insert_key key ks in
    if text_before (encode_key k) (encode_key key) then k ∷ later else key ∷ k ∷ ks

sort_keys : List MatchPostingKey → List MatchPostingKey
unfolding insert_key
sort_keys [] = []
sort_keys (key ∷ keys) = insert_key key (sort_keys keys)

-- `dedup`: a key that equals the one before it is left out.
dedup_after : MatchPostingKey → List MatchPostingKey → List MatchPostingKey
unfolding key_eq
dedup_after previous [] = []
dedup_after previous (key ∷ keys) =
    let kept = dedup_after previous keys in
    let rest = dedup_after key keys in if key_eq key previous then kept else key ∷ rest

dedup : List MatchPostingKey → List MatchPostingKey
unfolding dedup_after
dedup [] = []
dedup (key ∷ keys) = key ∷ dedup_after key keys

-- `MatchPostingKey::for_subscription`.
unfoldable pub for_subscription : CompiledSubscription → List MatchPostingKey
unfolding rule_keys sort_keys dedup posting_block
for_subscription subscription = dedup (
    sort_keys (
      rule_keys (posting_block subscription.subscription_id) subscription.targets
        subscription.rules))
