-- ===== src/Incident/Bounded.antt =====
-- The bounds put on the texts of a report: `bounded_event` copies an event only where it has to.
use disaster_alert.Prelude.{
  ℕ, zero, suc, ◌≤◌, ◌≡◌, refl, ap, sym, Bool, true, false, ◌||◌, List, [], ◌∷◌, length, take,
  get_elem?, map, any, Bool-cases, inl, inr, arith,
}
use mathlib.Core.Path.{ap₂}
use disaster_alert.Text.{Text}
use disaster_alert.Event.{DisasterEvent, event_key}
use disaster_alert.Incident.{
  exceeds_char_limit, truncate_in_place, exceeds_bounds, bounded_event, is_some,
}

take-of-short {ℓ} :
    {A : Type ℓ} (n : ℕ) (xs : List A) → is_some (get_elem? xs n) ≡ false → take n xs ≡ xs
take-of-short zero [] h = refl
take-of-short zero (x ∷ xs) h = absurd (ground arith)
take-of-short (suc n) [] h = refl
take-of-short (suc n) (x ∷ xs) h = ap (◌∷◌ x) (take-of-short n xs h)

take_all {ℓ} : {A : Type ℓ} (n : ℕ) (xs : List A) → length xs ≤ n → take n xs ≡ xs
take_all zero [] h = refl
take_all zero (x ∷ xs) h = absurd (omega arith)
take_all (suc n) [] h = refl
take_all (suc n) (x ∷ xs) h = ap (◌∷◌ x) (take_all n xs (omega arith))

truncate_in_place-take : (s : Text) (n : ℕ) → truncate_in_place s n ≡ take n s
unfolding truncate_in_place exceeds_char_limit
truncate_in_place-take s n = elim (Bool-cases (is_some (get_elem? s n))) [
  | inl long ↦ rw long refl
  | inr short ↦ rw short (sym (take-of-short n s short))
]

map-truncate :
    (regions : List Text)
    → any (λ r. exceeds_char_limit r 80) regions ≡ false
    → map (λ r. take 80 r) regions ≡ regions
unfolding any exceeds_char_limit
map-truncate [] h = refl
map-truncate (r ∷ rs) h =
    ap₂ ◌∷◌ (take-of-short 80 r (ground arith)) (map-truncate rs (ground arith))

-- The bounded copy that the slow path makes.
abbrev pub cut : DisasterEvent → DisasterEvent
cut e = record e {
  title = take 180 e.title;
  description = take 4000 e.description;
  occurred_at = take 80 e.occurred_at;
  affected_regions = map (λ r. take 80 r) (take 20 e.affected_regions);
}

regions-cut :
    (regions : List Text)
    → length regions ≤ 20
    → any (λ r. exceeds_char_limit r 80) regions ≡ false
    → map (λ r. take 80 r) (take 20 regions) ≡ regions
regions-cut regions h k = rw (take_all 20 regions h) (map-truncate regions k)

record Short (e : DisasterEvent) : Type 0 where
  title : is_some (get_elem? e.title 180) ≡ false
  description : is_some (get_elem? e.description 4000) ≡ false
  occurred_at : is_some (get_elem? e.occurred_at 80) ≡ false
  count : length e.affected_regions ≤ 20
  regions : any (λ r. exceeds_char_limit r 80) e.affected_regions ≡ false

or_false : (a b : Bool) → (a || b) ≡ false → (a ≡ false) × (b ≡ false)
or_false true b h = absurd (ground arith)
or_false false b h = (refl, h)

exceeds_bounds-Short : (e : DisasterEvent) → exceeds_bounds e ≡ false → Short e
unfolding exceeds_bounds
exceeds_bounds-Short e h =
    let (abcd, regions) = or_false _ _ h in
    let (abc, count) = or_false _ _ abcd in
    let (ab, occurred) = or_false _ _ abc in
    let (title, description) = or_false _ _ ab in
    record {
      title = unfold exceeds_char_limit in title;
      description = unfold exceeds_char_limit in description;
      occurred_at = unfold exceeds_char_limit in occurred;
      count = ground arith;
      regions = regions;
    }

Short-cut : (e : DisasterEvent) → Short e → cut e ≡ e
Short-cut e s = λ i. record e {
  title = take-of-short 180 e.title s.title i;
  description = take-of-short 4000 e.description s.description i;
  occurred_at = take-of-short 80 e.occurred_at s.occurred_at i;
  affected_regions = regions-cut e.affected_regions s.count s.regions i;
}

-- Whether or not an event is copied, the result is the event with each text cut at its limit, and
-- with no more than 20 regions.
pub bounded_event-cut : (e : DisasterEvent) → bounded_event e ≡ cut e
unfolding bounded_event
bounded_event-cut e = elim (Bool-cases (exceeds_bounds e)) [
  | inl long ↦ rw long (simp truncate_in_place-take)
  | inr short ↦ rw short (sym (Short-cut e (exceeds_bounds-Short e short)))
]

-- The bounds leave the key of an event alone.
pub event_key-bounded_event : (e : DisasterEvent) → event_key (bounded_event e) ≡ event_key e
unfolding event_key
event_key-bounded_event e = rw (bounded_event-cut e)
