-- ===== src/Matching/Engine/Nearest.antt =====
-- A match is with a target that is eligible, and no eligible target is closer.
use disaster_alert.Prelude.{
  ℕ, suc, ◌⊎◌, ◌≡◌, refl, Bool, true, false, Option, none, some, List, [], ◌∷◌, find?, get_elem?,
  All, if◌then◌else◌, Bool-cases, Option-cases, inl, inr, arith, ap, sym, ◌∙◌,
}
use disaster_alert.Prelude.Int.{ℤ, ltb_ℤ}
use disaster_alert.Event.{category_eq, is_retired}
use disaster_alert.Event.Float.{F64, f64_lt, rank}
use disaster_alert.Intensity.{MatchOps}
use disaster_alert.Delivery.{DeliveryRow}
use disaster_alert.Matching.{CompiledSubscription, CompiledTarget, CompiledRule}
use disaster_alert.Matching.Engine.{
  EventMatchContext, Offer, Step, stops, passes, offers, consider, match_targets, nearer, row_of,
  rule_matches, match_compiled_with_context,
}

ltb_ℤ-trans : (a b c : ℤ) → ltb_ℤ a b ≡ true → ltb_ℤ b c ≡ true → ltb_ℤ a c ≡ true
ltb_ℤ-trans a b c h k = ground (arith, h, k)

ltb_ℤ-irrefl : (a : ℤ) → ltb_ℤ a a ≡ false
ltb_ℤ-irrefl a = ground arith

f64_lt_trans : (a b c : F64) → f64_lt a b ≡ true → f64_lt b c ≡ true → f64_lt a c ≡ true
unfolding f64_lt
f64_lt_trans a b c h k = ground (arith, h, k, ltb_ℤ-trans (rank a) (rank b) (rank c))

f64_lt_irrefl : (a : F64) → f64_lt a a ≡ false
unfolding f64_lt
f64_lt_irrefl a = ground (arith, ltb_ℤ-irrefl (rank a))

offers-inj : (a b : Offer) → offers a ≡ offers b → b ≡ a
offers-inj a b same = ground (arith, same)

module _ (o : MatchOps) (rule : CompiledRule) (context : EventMatchContext) where
  abbrev step : CompiledTarget → Step
  step = consider o rule context

  step-cases :
      (target : CompiledTarget)
      → (step target ≡ stops)
        ⊎ ((step target ≡ passes) ⊎ ((offer : Offer) × (step target ≡ offers offer)))
  step-cases target = Step-cases (step target)
    where
      Step-cases :
          (s : Step) → (s ≡ stops) ⊎ ((s ≡ passes) ⊎ ((offer : Offer) × (s ≡ offers offer)))
      Step-cases stops = inl refl
      Step-cases passes = inr (inl refl)
      Step-cases (offers offer) = inr (inr (offer, refl))

  abbrev run :
      List CompiledTarget → Option (CompiledTarget × Offer) → Option (CompiledTarget × Offer)
  run = match_targets o rule context

  replaced :
      (before best : CompiledTarget × Offer) (offer : Offer) (target : CompiledTarget)
      → nearer o rule context offer (some before) ≡ true
      → (best ≡ (target, offer)) ⊎ (f64_lt best.1.distance offer.distance ≡ true)
      → (best ≡ before) ⊎ (f64_lt best.1.distance before.1.distance ≡ true)
  unfolding nearer
  replaced before best offer target closer (inl same) =
      inr (rw (ap (λ (b : CompiledTarget × Offer). b.1.distance) same) closer)
  replaced before best offer target closer (inr less) =
      inr (f64_lt_trans best.1.distance offer.distance before.1.distance less closer)

  -- The chosen target is the one at hand or one that is closer.
  run-improves :
      (targets : List CompiledTarget) (before best : CompiledTarget × Offer)
      → run targets (some before) ≡ some best
      → (best ≡ before) ⊎ (f64_lt best.1.distance before.1.distance ≡ true)
  unfolding match_targets
  run-improves [] before best h = inl (ground (arith, h))
  run-improves (target ∷ targets) before best h = elim (step-cases target) [
    | inl ends ↦ absurd (ground (arith, rw (match_targets, ends) at h))
    | inr (inl skips) ↦ run-improves targets before best (rw (match_targets, skips) at h)
    | inr (inr (offer, made)) ↦
        let next = rw (match_targets, made) at h in
        elim (Bool-cases (nearer o rule context offer (some before))) [
          | inl closer ↦
              replaced before best offer target closer
                (run-improves targets (target, offer) best (rw closer at next))
          | inr farther ↦ run-improves targets before best (rw farther at next)
        ]
  ]

  -- An eligible target is not closer than the chosen one.
  abbrev pub NoCloser : CompiledTarget × Offer → CompiledTarget → Type 0
  NoCloser best target =
      (offer : Offer)
      → consider o rule context target ≡ offers offer
      → f64_lt offer.distance best.1.distance ≡ false

  first-NoCloser :
      (target : CompiledTarget) (offer : Offer) (best : CompiledTarget × Offer)
      → step target ≡ offers offer
      → f64_lt offer.distance best.1.distance ≡ false
      → NoCloser best target
  first-NoCloser target offer best made fine other made' =
      rw (offers-inj offer other (sym made ∙ made')) fine

  -- Where `less` holds of the pair, so would an order that the values do not have.
  not-less : (a b : F64) → (f64_lt a b ≡ true → ⊥) → f64_lt a b ≡ false
  not-less a b impossible = elim (Bool-cases (f64_lt a b)) [
    | inl less ↦ absurd (impossible less)
    | inr fine ↦ fine
  ]

  true-ne-false : (b : Bool) → b ≡ true → b ≡ false → ⊥
  true-ne-false b h k = ground (arith, h, k)

  chosen-fine :
      (target : CompiledTarget) (offer : Offer) (best : CompiledTarget × Offer)
      → f64_lt offer.distance best.1.distance ≡ true
      → (best ≡ (target, offer)) ⊎ (f64_lt best.1.distance offer.distance ≡ true)
      → ⊥
  chosen-fine target offer best less (inl same) =
      true-ne-false (f64_lt offer.distance offer.distance)
        (rw (ap (λ (b : CompiledTarget × Offer). b.1.distance) same) at less)
        (f64_lt_irrefl offer.distance)
  chosen-fine target offer best less (inr more) =
      true-ne-false (f64_lt offer.distance offer.distance)
        (f64_lt_trans offer.distance best.1.distance offer.distance less more)
        (f64_lt_irrefl offer.distance)

  kept-less :
      (before best : CompiledTarget × Offer) (offer : Offer)
      → f64_lt offer.distance best.1.distance ≡ true
      → (best ≡ before) ⊎ (f64_lt best.1.distance before.1.distance ≡ true)
      → f64_lt offer.distance before.1.distance ≡ true
  kept-less before best offer less (inl same) =
      rw (ap (λ (b : CompiledTarget × Offer). b.1.distance) same) at less
  kept-less before best offer less (inr more) =
      f64_lt_trans offer.distance best.1.distance before.1.distance less more

  passes-ne-offers : (s : Step) (offer : Offer) → s ≡ passes → s ≡ offers offer → ⊥
  passes-ne-offers s offer h k = ground (arith, h, k)

  offer-fine :
      (target : CompiledTarget) (offer : Offer) (targets : List CompiledTarget)
      (before : Option (CompiledTarget × Offer)) (best : CompiledTarget × Offer)
      → run targets (if nearer o rule context offer before then some (target, offer) else before)
        ≡ some best
      → f64_lt offer.distance best.1.distance ≡ false
  unfolding nearer
  offer-fine target offer targets none best h =
      not-less offer.distance best.1.distance
        (λ less. chosen-fine target offer best less (run-improves targets (target, offer) best h))
  offer-fine target offer targets (some before) best h =
      elim (Bool-cases (f64_lt offer.distance before.1.distance)) [
        | inl closer ↦ not-less offer.distance best.1.distance (λ less.
            chosen-fine target offer best less
              (run-improves targets (target, offer) best (rw closer at h)))
        | inr farther ↦ not-less offer.distance best.1.distance (λ less.
            true-ne-false (f64_lt offer.distance before.1.distance)
              (kept-less before best offer less
                (run-improves targets before best (rw farther at h)))
              farther)
      ]

  -- No eligible target is closer than the chosen one.
  run-NoCloser :
      (targets : List CompiledTarget) (before : Option (CompiledTarget × Offer))
      (best : CompiledTarget × Offer)
      → run targets before ≡ some best
      → All (NoCloser best) targets
  unfolding match_targets
  run-NoCloser [] before best h = tt
  run-NoCloser (target ∷ targets) before best h = elim (step-cases target) [
    | inl ends ↦ absurd (ground (arith, rw (match_targets, ends) at h))
    | inr (inl skips) ↦ (
      λ offer made. absurd (passes-ne-offers (step target) offer skips made),
      run-NoCloser targets before best (rw (match_targets, skips) at h),
    )
    | inr (inr (offer, made)) ↦
        let next = rw (match_targets, made) at h in
        (
          first-NoCloser target offer best made (offer-fine target offer targets before best next),
          run-NoCloser targets
              (if nearer o rule context offer before then some (target, offer) else before) best
              next,
        )
  ]

  -- The chosen target is one of the targets, with what it offers.
  abbrev pub Chosen : List CompiledTarget → CompiledTarget × Offer → Type 0
  Chosen targets best =
      (i : ℕ) × (get_elem? targets i ≡ some best.0)
      × (consider o rule context best.0 ≡ offers best.1)

  later :
      (target : CompiledTarget) (targets : List CompiledTarget)
      (before : Option (CompiledTarget × Offer)) (best : CompiledTarget × Offer)
      → (before ≡ some best) ⊎ Chosen targets best
      → (before ≡ some best) ⊎ Chosen (target ∷ targets) best
  later target targets before best (inl same) = inl same
  later target targets before best (inr (i, place, made)) = inr (suc i, place, made)

  taken :
      (target : CompiledTarget) (targets : List CompiledTarget)
      (before : Option (CompiledTarget × Offer)) (best : CompiledTarget × Offer) (offer : Offer)
      → step target ≡ offers offer
      → (some (target, offer) ≡ some best) ⊎ Chosen targets best
      → (before ≡ some best) ⊎ Chosen (target ∷ targets) best
  taken target targets before best offer made (inl same) =
      let e : (target, offer) ≡ best = ground (arith, same) in
      inr (0, ap (λ (b : CompiledTarget × Offer). some b.0) e, rw⁻¹ e made)
  taken target targets before best offer made (inr (i, place, found)) = inr (suc i, place, found)

  run-Chosen :
      (targets : List CompiledTarget) (before : Option (CompiledTarget × Offer))
      (best : CompiledTarget × Offer)
      → run targets before ≡ some best
      → (before ≡ some best) ⊎ Chosen targets best
  unfolding match_targets
  run-Chosen [] before best h = inl h
  run-Chosen (target ∷ targets) before best h = elim (step-cases target) [
    | inl ends ↦ absurd (ground (arith, rw (match_targets, ends) at h))
    | inr (inl skips) ↦
        later target targets before best
          (run-Chosen targets before best (rw (match_targets, skips) at h))
    | inr (inr (offer, made)) ↦
        let next = rw (match_targets, made) at h in
        elim (Bool-cases (nearer o rule context offer before)) [
          | inl closer ↦
              taken target targets before best offer made
                (run-Chosen targets (some (target, offer)) best (rw closer at next))
          | inr farther ↦
              later target targets before best (run-Chosen targets before best (rw farther at next))
        ]
  ]

from_targets :
    (o : MatchOps) (rule : CompiledRule) (context : EventMatchContext)
    (targets : List CompiledTarget) (best : CompiledTarget × Offer)
    → (none ≡ some best) ⊎ Chosen o rule context targets best
    → Chosen o rule context targets best
from_targets o rule context targets best (inl h) = absurd (ground (arith, h))
from_targets o rule context targets best (inr chosen) = chosen

module _ (o : MatchOps) (subscription : CompiledSubscription) (context : EventMatchContext)
    (row : DeliveryRow) where
  -- What a row stands for: the first rule for the category, which accepts the event, and the nearest
  -- target that is eligible under it.
  pub record Matched : Type 0 where
    pub live : is_retired context.event.category ≡ false
    pub rule : CompiledRule
    pub first_rule :
        find?
          (λ (r : CompiledRule). category_eq r.category context.event.category)
          subscription.rules
        ≡ some rule
    pub accepted : rule_matches rule context.event context.source_id ≡ true
    pub best : CompiledTarget × Offer
    pub chosen : Chosen o rule context subscription.targets best
    pub no_closer : All (NoCloser o rule context best) subscription.targets
    pub shown : row ≡ row_of o subscription best

  some-row : {a : DeliveryRow} → some a ≡ some row → row ≡ a
  some-row h = ground (arith, h)

  -- A row that a match gives is for the nearest of the targets that are eligible under the first rule
  -- of the event's category, which accepts the event: no eligible target is closer, and the event is
  -- of a category that is not retired.
  pub match_compiled_with_context-Matched :
      match_compiled_with_context o subscription context ≡ some row → Matched
  unfolding match_compiled_with_context
  match_compiled_with_context-Matched h = elim (Bool-cases (is_retired context.event.category)) [
    | inl past ↦ absurd (ground (arith, rw past at h))
    | inr live ↦
        elim (Option-cases (
          find? (λ (r : CompiledRule). category_eq r.category context.event.category)
            subscription.rules)) [
              | inl missing ↦ absurd (ground (arith, rw (live, missing) at h))
              | inr (rule, found) ↦
                  elim (Bool-cases (rule_matches rule context.event context.source_id)) [
                    | inr refused ↦ absurd (ground (arith, rw (live, found, refused) at h))
                    | inl accepted ↦
                        elim (Option-cases
                          (match_targets o rule context subscription.targets none)) [
                            | inl none_left ↦
                                absurd (ground (arith, rw (live, found, accepted, none_left) at h))
                            | inr (best, run_to) ↦ record {
                              live = live;
                              rule = rule;
                              first_rule = found;
                              accepted = accepted;
                              best = best;
                              chosen =
                                  from_targets o rule context subscription.targets best (
                                    run-Chosen o rule context subscription.targets none best
                                      run_to);
                              no_closer =
                                  run-NoCloser o rule context subscription.targets none best run_to;
                              shown = some-row (rw (live, found, accepted, run_to) at h);
                            }
                          ]
                  ]
            ]
  ]
