-- ===== src/Event/Key.antt =====
-- The key of an event names its category, source and event id without ambiguity.
use disaster_alert.Prelude.{◌≡◌, ◌∙◌, sym, ap, refl, if◌then◌else◌, ◌++◌, [], ◌↔◌, true, arith}
use disaster_alert.Text.{Text, text, text_eq, byte_len}
use disaster_alert.Text.Decimal.{show, show-injective, show-IsDigits}
use disaster_alert.Text.Split.{split_at_colon, split_at_bytes}
use disaster_alert.Event.{
  DisasterCategory, earthquake_warning, earthquake_report, weather_warning, tsunami, typhoon,
  DisasterEvent, category_eq, category_str, key_field, event_key,
}
use mathlib.Core.List.{append_assoc, append-nil}

key_field-split : (s s' t u : Text) → key_field s ++ t ≡ key_field s' ++ u → (s ≡ s') × (t ≡ u)
unfolding key_field
key_field-split s s' t u e =
    let (n, r) =
      split_at_colon (show (byte_len s)) (show (byte_len s')) (s ++ t) (s' ++ u)
        (show-IsDigits (byte_len s)) (show-IsDigits (byte_len s')) (simp append_assoc at e) in
    split_at_bytes s s' t u (show-injective (byte_len s) (byte_len s') n) r

pub category_eq_iff : (a b : DisasterCategory) → (category_eq a b ≡ true) ↔ (a ≡ b)
unfolding category_eq
category_eq_iff a b = ground arith

category_of : Text → DisasterCategory
category_of s =
    if text_eq s (text "earthquake_warning")
    then earthquake_warning
    else if text_eq s (text "earthquake_report")
    then earthquake_report
    else if text_eq s (text "weather_warning")
    then weather_warning
    else if text_eq s (text "tsunami")
    then tsunami
    else typhoon

category_of-category_str : (c : DisasterCategory) → category_of (category_str c) ≡ c
unfolding category_of category_str text_eq
category_of-category_str earthquake_warning = refl
category_of-category_str earthquake_report = refl
category_of-category_str weather_warning = refl
category_of-category_str tsunami = refl
category_of-category_str typhoon = refl

-- Two events with one key are of one category, one source and one event id.
pub event_key-injective :
    (a b : DisasterEvent)
    → event_key a ≡ event_key b
    → (a.category ≡ b.category) × (a.source ≡ b.source) × (a.event_id ≡ b.event_id)
unfolding event_key
event_key-injective a b e =
    let (c, r) = key_field-split (category_str a.category) (category_str b.category) _ _ e in
    let (s, i) = key_field-split a.source b.source _ _ r in
    (
      sym (category_of-category_str a.category)
          ∙ ap category_of c
          ∙ category_of-category_str b.category,
      s,
      (key_field-split a.event_id b.event_id [] [] (rw (append-nil, append-nil) i)).0,
    )
