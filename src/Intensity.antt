-- ===== src/Intensity.antt =====
-- src/utils/intensity.rs: the intensity of an earthquake at a distance. The arithmetic of `f64` is an
-- argument.
use disaster_alert.Prelude.Int.{ℤ}
use disaster_alert.Prelude.{ℕ, not, ◌||◌, if◌then◌else◌}
use disaster_alert.Event.Float.{F64, is_finite, f64_lt, f64_le, f64_max, clamp}
use disaster_alert.Geo.{FloatOps}

-- The operations on `f64` that the matching uses beside those of `FloatOps`.
pub record MatchOps : Type 0 where
  pub floats : FloatOps
  pub log10 : F64 → F64
  pub mul_add : F64 → F64 → F64 → F64
  pub round : F64 → F64
  pub ceil : F64 → F64
  -- `as` a signed integer of 32 bits, and `as` an unsigned integer of that many bits.
  pub as_i32 : F64 → ℤ
  pub as_unsigned : ℕ → F64 → ℕ
  -- `f64::from` of a signed integer of 32 bits.
  pub from_i32 : ℤ → F64

-- The four coefficients `a`, `b`, `c` and `d`.
abbrev Coefficients : Type 0
Coefficients = F64 × F64 × F64 × F64

-- 2.5, 3.8, 12.0 and -1.2
abbrev small : Coefficients
small = (0x4004000000000000, 0x400e666666666666, 0x4028000000000000, 0xbff3333333333333)

-- 2.5, 3.6, 10.0 and -1.3
abbrev medium : Coefficients
medium = (0x4004000000000000, 0x400ccccccccccccd, 0x4024000000000000, 0xbff4cccccccccccd)

-- 2.3, 3.7, 10.0 and -1.0
abbrev strong : Coefficients
strong = (0x4002666666666666, 0x400d99999999999a, 0x4024000000000000, 0xbff0000000000000)

-- 2.0, 3.8, 10.0 and -0.8
abbrev major : Coefficients
major = (0x4000000000000000, 0x400e666666666666, 0x4024000000000000, 0xbfe999999999999a)

-- 7.0
abbrev pub seven : F64
seven = 0x401c000000000000

module _ (o : MatchOps) where
  lerp : F64 → F64 → F64 → F64
  lerp left right t = o.floats.add left (o.floats.mul (o.floats.sub right left) t)

  blend_coefficients : Coefficients → Coefficients → F64 → Coefficients
  unfolding lerp
  blend_coefficients left right t =
      (lerp left.0 right.0 t, lerp left.1 right.1 t, lerp left.2 right.2 t, lerp left.3 right.3 t)

  -- `(magnitude - start) / 0.4`.
  abbrev part : F64 → F64 → F64
  part magnitude start = o.floats.div (o.floats.sub magnitude start) 0x3fd999999999999a

  -- The bounds are 4.8, 5.2, 5.8, 6.2, 6.8 and 7.2.
  intensity_coefficients : F64 → Coefficients
  unfolding f64_lt blend_coefficients
  intensity_coefficients magnitude =
      if f64_lt magnitude 0x4013333333333333
      then small
      else if f64_lt magnitude 0x4014cccccccccccd
      then blend_coefficients small medium (part magnitude 0x4013333333333333)
      else if f64_lt magnitude 0x4017333333333333
      then medium
      else if f64_lt magnitude 0x4018cccccccccccd
      then blend_coefficients medium strong (part magnitude 0x4017333333333333)
      else if f64_lt magnitude 0x401b333333333333
      then strong
      else if f64_lt magnitude 0x401ccccccccccccd
      then blend_coefficients strong major (part magnitude 0x401b333333333333)
      else major

  attenuated : F64 → F64 → F64
  unfolding f64_max intensity_coefficients
  attenuated magnitude distance_km =
      let (a, b, c, d) = intensity_coefficients magnitude in
      let effective_distance = f64_max distance_km 0x3ff0000000000000 in
      o.floats.add
        (o.floats.sub (o.floats.mul a magnitude)
          (o.floats.mul b (o.log10 (o.floats.add effective_distance c))))
        d

  unfoldable pub estimate_intensity : F64 → F64 → F64
  unfolding is_finite f64_le f64_lt clamp attenuated
  estimate_intensity magnitude distance_km =
      if not (is_finite magnitude)
        || not (is_finite distance_km)
        || f64_le magnitude 0
        || f64_lt distance_km 0
      then 0
      else clamp (attenuated magnitude distance_km) 0 seven
