-- ===== src/Subscription/Validate/Bands.antt =====
-- Which intensity bands a rule for earthquake warnings may have.
use disaster_alert.Prelude.{
  ℕ, zero, suc, ◌+◌, ◌-◌, ◌≤◌, ◌<◌, ◌≡◌, ◌≢◌, ◌↔◌, refl, Bool, false, ◌&&◌, ◌||◌, none, some, List,
  [], ◌∷◌, ◌==◌, ltb, leb, length, any, All, Bool-cases, Option-cases, inl, inr, arith,
}
use disaster_alert.Delivery.{InterruptionLevel, critical, level_eq, level_eq_iff}
use disaster_alert.Subscription.{IntensityBand}
use disaster_alert.Subscription.Validate.{valid, cover, validate_bands, validate_intensity_bands}

holds : List ℕ → ℕ → Bool
unfolding any
holds covered i = any (λ other. other == i) covered

within : ℕ → ℕ → ℕ → Bool
within start count i = leb start i && ltb i (start + count)

cover-free :
    (count start : ℕ) (covered covered' : List ℕ)
    → cover count start covered ≡ some covered'
    → (i : ℕ) → start ≤ i
    → i < start + count
    → holds covered i ≡ false
unfolding cover holds
cover-free zero start covered covered' run i low high = absurd (omega arith)
cover-free (suc count) start covered covered' run i low high = elim (Bool-cases (start == i)) [
  | inl same ↦ ground (arith, same)
  | inr later ↦
      ground (arith, cover-free count (start + 1) (start ∷ covered) covered' (ground arith) i)
]

cover-holds :
    (count start : ℕ) (covered covered' : List ℕ) (i : ℕ)
    → cover count start covered ≡ some covered'
    → holds covered' i ≡ (holds covered i || within start count i)
unfolding cover holds within
cover-holds zero start covered covered' i run = ground arith
cover-holds (suc count) start covered covered' i run =
    ground (arith, cover-holds count (start + 1) (start ∷ covered) covered' i)

cover-total :
    (count start : ℕ) (covered : List ℕ)
    → ((i : ℕ) → start ≤ i → i < start + count → holds covered i ≡ false)
    → cover count start covered ≢ none
unfolding cover holds
cover-total zero start covered free = ground arith
cover-total (suc count) start covered free = ground (
  arith,
  free start,
  cover-total count (start + 1) (start ∷ covered) (λ i low high. ground (arith, free i)),
)

-- An intensity of the band.
abbrev pub Covers : IntensityBand → ℕ → Type 0
Covers band i = (band.min ≤ i) × (i ≤ band.max)

-- The bounds of a band: at most 7, and a critical one ends at 7.
abbrev pub IsBand : IntensityBand → Type 0
IsBand band =
    (band.min ≤ band.max) × (band.max ≤ 7) × (band.interruption_level ≡ critical → band.max ≡ 7)

-- Two bands with different levels and no common intensity.
abbrev pub Separate : IntensityBand → IntensityBand → Type 0
Separate a b =
    (a.interruption_level ≢ b.interruption_level) × ((i : ℕ) → Covers a i → Covers b i → ⊥)

abbrev pub Pairwise {ℓ κ} : {A : Type ℓ} → (A → A → Type κ) → List A → Type κ
Pairwise R [] = Unit
Pairwise R (x ∷ xs) = All (R x) xs × Pairwise R xs

Fresh : List InterruptionLevel → List ℕ → IntensityBand → Type 0
unfolding any level_eq holds
Fresh levels covered band =
    (any (λ other. level_eq other band.interruption_level) levels ≡ false)
    × ((i : ℕ) → Covers band i → holds covered i ≡ false)

All-map {ℓ κ μ} :
    {A : Type ℓ} (P : A → Type κ) (Q : A → Type μ) (xs : List A)
    → ((x : A) → P x → Q x)
    → All P xs
    → All Q xs
All-map P Q [] f h = tt
All-map P Q (x ∷ xs) f h = (f x h.0, All-map P Q xs f h.1)

All-map₂ {ℓ} :
    {A : Type ℓ} (P Q R : A → Type 0) (xs : List A)
    → ((x : A) → P x → Q x → R x)
    → All P xs
    → All Q xs
    → All R xs
All-map₂ P Q R [] f h k = tt
All-map₂ P Q R (x ∷ xs) f h k = (f x h.0 k.0, All-map₂ P Q R xs f h.1 k.1)

module _ (levels : List InterruptionLevel) (covered covered' : List ℕ) (band : IntensityBand)
    (run : cover (band.max + 1 - band.min) band.min covered ≡ some covered')
    (order : band.min ≤ band.max) where
  Fresh-split :
      (b : IntensityBand)
      → Fresh (band.interruption_level ∷ levels) covered' b
      → Separate band b × Fresh levels covered b
  unfolding Fresh any within
  Fresh-split b h = (
    (
      ground (arith, level_eq_iff band.interruption_level b.interruption_level, h.0),
      λ i c d.
          ground
            (arith, h.1 i, cover-holds (band.max + 1 - band.min) band.min covered covered' i run),
    ),
    (
      ground (arith, h.0),
      λ i d.
          ground
            (arith, h.1 i, cover-holds (band.max + 1 - band.min) band.min covered covered' i run),
    ),
  )

  Fresh-join :
      (b : IntensityBand)
      → Separate band b
      → Fresh levels covered b
      → Fresh (band.interruption_level ∷ levels) covered' b
  unfolding Fresh any within
  Fresh-join b s h = (
    ground (arith, level_eq_iff band.interruption_level b.interruption_level, s.0, h.0),
    λ i d. ground (
      arith,
      h.1 i,
      s.1 i,
      cover-holds (band.max + 1 - band.min) band.min covered covered' i run,
    ),
  )

All-split {ℓ} :
    {A : Type ℓ} (P Q : A → Type 0) (xs : List A) → All (λ x. P x × Q x) xs → All P xs × All Q xs
All-split P Q [] h = (tt, tt)
All-split P Q (x ∷ xs) h = let (p, q) = All-split P Q xs h.1 in ((h.0.0, p), (h.0.1, q))

bands_sound :
    (levels : List InterruptionLevel) (covered : List ℕ) (bands : List IntensityBand)
    → validate_bands levels covered bands ≡ valid
    → All IsBand bands × All (Fresh levels covered) bands × Pairwise Separate bands
unfolding validate_bands Fresh any
bands_sound levels covered [] run = (tt, tt, tt)
bands_sound levels covered (band ∷ bands) run =
    elim (Option-cases (cover (band.max + 1 - band.min) band.min covered)) [
      | inl clash ↦ absurd (ground (arith, clash))
      | inr (covered', free) ↦
          let rest : validate_bands (band.interruption_level ∷ levels) covered' bands ≡ valid =
            ground (arith, free) in
          let is_band : IsBand band = (
            ground arith,
            ground arith,
            λ e. ground (arith, (level_eq_iff band.interruption_level critical).1 e),
          ) in
          let (all_bands, fresh, pairs) =
            bands_sound (band.interruption_level ∷ levels) covered' bands rest in
          let (separate, fresh') =
            All-split (Separate band) (Fresh levels covered) bands
              (All-map _ _ bands (Fresh-split levels covered covered' band free is_band.0) fresh) in
          (
            (is_band, all_bands),
            (
              (
                ground arith,
                λ i d.
                    cover-free (band.max + 1 - band.min) band.min covered covered' free i (d.0)
                      (omega arith),
              ),
              fresh',
            ),
            (separate, pairs),
          )
    ]

bands_complete :
    (levels : List InterruptionLevel) (covered : List ℕ) (bands : List IntensityBand)
    → All IsBand bands
    → All (Fresh levels covered) bands
    → Pairwise Separate bands
    → validate_bands levels covered bands ≡ valid
unfolding validate_bands Fresh
bands_complete levels covered [] all_bands fresh pairs = refl
bands_complete levels covered (band ∷ bands) all_bands fresh pairs =
    elim (Option-cases (cover (band.max + 1 - band.min) band.min covered)) [
      | inl clash ↦ absurd (
          cover-total (band.max + 1 - band.min) band.min covered
            (λ i low high. fresh.0.1 i (low, omega (arith, all_bands.0.0))) clash)
      | inr (covered', free) ↦
          let ih =
            bands_complete (band.interruption_level ∷ levels) covered' bands all_bands.1
              (All-map₂ _ _ _ bands (Fresh-join levels covered covered' band free all_bands.0.0)
                pairs.0 fresh.1)
              pairs.1 in
          ground
            (arith, free, ih, all_bands.0, fresh.0.0, level_eq_iff band.interruption_level critical)
    ]

All-Fresh : (bands : List IntensityBand) → All (Fresh [] []) bands
unfolding Fresh any holds
All-Fresh [] = tt
All-Fresh (band ∷ bands) = ((refl, λ i d. refl), All-Fresh bands)

-- A list of intensity bands is accepted exactly when it has one to three bands, each with bounds in
-- order and at most 7 and ending at 7 where it is critical, and no two bands have one level or a
-- common intensity.
pub validate_intensity_bands_iff :
    (bands : List IntensityBand)
    → (validate_intensity_bands bands ≡ valid)
      ↔ ((1 ≤ length bands) × (length bands ≤ 3) × All IsBand bands × Pairwise Separate bands)
unfolding validate_intensity_bands
validate_intensity_bands_iff bands = (
  λ run.
      let (all_bands, _, pairs) = bands_sound [] [] bands (ground arith) in
      (ground arith, ground arith, all_bands, pairs),
  λ (low, high, all_bands, pairs).
      ground (arith, low, high, bands_complete [] [] bands all_bands (All-Fresh bands) pairs),
)
