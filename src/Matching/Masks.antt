-- ===== src/Matching/Masks.antt =====
-- The masks of sources: a compiled rule accepts the sources that the rule names.
use disaster_alert.Prelude.{
  ℕ, zero, suc, ◌+◌, ◌*◌, ◌/◌, ◌%◌, ◌≡◌, refl, Bool, true, false, ◌||◌, Option, none, some, List,
  [], ◌∷◌, ◌==◌, ==_iff, any, if◌then◌else◌, Bool-cases, Option-cases, inl, inr, arith, ap, sym,
  ◌∙◌,
}
use disaster_alert.Text.{Text}
use disaster_alert.Subscription.{AlertRule, SourceSelection, all_sources, include, rule_sources}
use disaster_alert.Matching.{
  CompiledRule, source_id, bit, has_bit, set_bit, accepts_source, mask_of, compile_rule, selected,
  compiled,
}

has_bit-same : (m n j : ℕ) → m ≡ n → has_bit m j ≡ has_bit n j
has_bit-same m n j same = ap (λ mask. has_bit mask j) same

has_bit-zero : (j : ℕ) → has_bit 0 j ≡ false
unfolding has_bit
has_bit-zero zero = ground arith
has_bit-zero (suc j) = has_bit-same (0 / 2) 0 j (omega arith) ∙ has_bit-zero j

has_bit-set_bit : (i j m : ℕ) → has_bit (set_bit m i) j ≡ ((i == j) || has_bit m j)
unfolding has_bit set_bit
has_bit-set_bit zero zero m = ground arith
has_bit-set_bit zero (suc j) m =
    let halved : (if m % 2 == 1 then m else m + 1) / 2 ≡ m / 2 = ground arith in
    ground (arith, has_bit-same _ (m / 2) j halved)
has_bit-set_bit (suc i) zero m = ground arith
has_bit-set_bit (suc i) (suc j) m =
    let halved : (m % 2 + 2 * set_bit (m / 2) i) / 2 ≡ set_bit (m / 2) i = omega arith in
    ground (arith, has_bit-same _ _ j halved, has_bit-set_bit i j (m / 2))

-- Whether one of the names is the source's, where only a source with a bit counts.
abbrev pub names_source : List Text → ℕ → Bool
names_source ids source = any (λ id. source_id id == source) ids

some-ne-none : (o : Option ℕ) (n : ℕ) → o ≡ some n → o ≡ none → ⊥
some-ne-none o n h k = ground (arith, h, k)

bit-inj : (n place : ℕ) → bit n ≡ some place → n ≡ suc place
unfolding bit
bit-inj zero place h = absurd (ground (arith, h))
bit-inj (suc n) place h = ground (arith, h)

same_place :
    (n source first place : ℕ)
    → bit n ≡ some first
    → bit source ≡ some place
    → (first == place) ≡ (n == source)
same_place n source first place h k = ground (arith, bit-inj n first h, bit-inj source place k)

differs : (n source first : ℕ) → bit n ≡ some first → bit source ≡ none → (n == source) ≡ false
differs n source first h k = elim (Bool-cases (n == source)) [
  | inr other ↦ other
  | inl same ↦ absurd (some-ne-none (bit n) first h (ap bit ((==_iff n source).0 same) ∙ k))
]

or_swap : (p m n : Bool) → ((p || m) || n) ≡ (m || (p || n))
or_swap p m n = ground arith

mask_of-has_bit :
    (ids : List Text) (mask found source place : ℕ)
    → bit source ≡ some place
    → mask_of ids mask ≡ some found
    → has_bit found place ≡ (has_bit mask place || names_source ids source)
unfolding mask_of any
mask_of-has_bit [] mask found source place known run = ground (arith, run)
mask_of-has_bit (id ∷ ids) mask found source place known run =
    elim (Option-cases (bit (source_id id))) [
      | inl unknown ↦ absurd (ground (arith, rw unknown at run))
      | inr (first, represented) ↦
          let ih =
            mask_of-has_bit ids (set_bit mask first) found source place known
              (rw represented at run) in
          ih
          ∙ (ap (λ b. b || names_source ids source) (has_bit-set_bit first place mask)
              ∙ (or_swap (first == place) (has_bit mask place) (names_source ids source)
                  ∙ ap (λ b. has_bit mask place || (b || names_source ids source))
                      (same_place (source_id id) source first place represented known)))
    ]

-- A source without a bit is not named, since the names have bits.
mask_of-unnamed :
    (ids : List Text) (mask found source : ℕ)
    → bit source ≡ none
    → mask_of ids mask ≡ some found
    → names_source ids source ≡ false
unfolding mask_of any
mask_of-unnamed [] mask found source unknown run = refl
mask_of-unnamed (id ∷ ids) mask found source unknown run =
    elim (Option-cases (bit (source_id id))) [
      | inl missing ↦ absurd (ground (arith, rw missing at run))
      | inr (first, represented) ↦
          rw (differs (source_id id) source first represented unknown)
            (mask_of-unnamed ids (set_bit mask first) found source unknown (rw represented at run))
    ]

-- What a selection of sources asks for.
pub selects : SourceSelection → ℕ → Bool
selects all_sources source = true
selects (include ids) source = names_source ids source

selected-accepts :
    (rule : AlertRule) (selection : SourceSelection) (r : CompiledRule) (source : ℕ)
    → selected rule selection ≡ some r
    → accepts_source r source ≡ selects selection source
unfolding selected compiled accepts_source selects
selected-accepts rule all_sources r source run =
    let e : r.wildcard_source ≡ true = ground (arith, run) in ground (arith, e)
selected-accepts rule (include ids) r source run = elim (Option-cases (mask_of ids 0)) [
  | inl missing ↦ absurd (ground (arith, rw (selected, missing) at run))
  | inr (mask, found) ↦
      let e : r ≡ compiled rule mask false = ground (arith, rw (selected, found) at run) in
      let wildcard : r.wildcard_source ≡ false = ap (λ (q : CompiledRule). q.wildcard_source) e in
      let masked : r.source_mask ≡ mask = ap (λ (q : CompiledRule). q.source_mask) e in
      elim (Option-cases (bit source)) [
        | inl unknown ↦
            rw (wildcard, unknown) (sym (mask_of-unnamed ids 0 mask source unknown found))
        | inr (place, known) ↦
            rw (wildcard, known, masked)
              (mask_of-has_bit ids 0 mask source place known found
                ∙ ap (λ b. b || names_source ids source) (has_bit-zero place))
      ]
]

-- A compiled rule accepts a source exactly when the rule was written for all sources or names one
-- that has the number of that source.
pub compile_rule-accepts_source :
    (rule : AlertRule) (r : CompiledRule) (source : ℕ)
    → compile_rule rule ≡ some r
    → accepts_source r source ≡ selects (rule_sources rule) source
unfolding compile_rule
compile_rule-accepts_source rule r source run =
    selected-accepts rule (rule_sources rule) r source run
