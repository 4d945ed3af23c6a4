-- ===== src/Examples/Subscriptions.antt =====
-- The theorems on subscriptions at a small one.
use disaster_alert.Prelude.{◌≡◌, ◌↔◌, ◌≤◌, [], ◌∷◌, All, length, List}
use disaster_alert.Delivery.{InterruptionLevel}
use disaster_alert.Subscription.{IntensityBand}
use disaster_alert.Subscription.Validate.{valid, validate_intensity_bands}
use disaster_alert.Subscription.Validate.Bands.{
  IsBand, Separate, Pairwise, validate_intensity_bands_iff,
}

abbrev two_bands : List IntensityBand
two_bands =
    (record { min = 2; max = 3; interruption_level = InterruptionLevel.active })
    ∷ (record { min = 4; max = 7; interruption_level = InterruptionLevel.critical })
    ∷ []

validate_intensity_bands_iff_example : (validate_intensity_bands two_bands ≡ valid) ↔ (
    (1 ≤ length two_bands)
    × (length two_bands ≤ 3)
    × All IsBand two_bands
    × Pairwise Separate two_bands)
validate_intensity_bands_iff_example = validate_intensity_bands_iff two_bands
