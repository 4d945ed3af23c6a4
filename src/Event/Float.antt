-- ===== src/Event/Float.antt =====
-- The values of type `f64`: a number below 2^64 is a bit pattern of IEEE 754. Tests and orders are
-- defined here; arithmetic on floats is not modelled.
use disaster_alert.Prelude.{
  ℕ, ◌*◌, ◌/◌, ◌%◌, ◌^◌, Bool, true, false, not, ◌&&◌, Option, none, some, ltb, if◌then◌else◌,
}
use disaster_alert.Prelude.Int.{ℤ, pos, sub_ℕ, ltb_ℤ, leb_ℤ}

abbrev pub F64 : Type 0
F64 = ℕ

abbrev exponent : F64 → ℕ
exponent x = (x / 2 ^ 52) % 2 ^ 11

abbrev magnitude_bits : F64 → ℕ
magnitude_bits x = x % 2 ^ 63

unfoldable pub is_nan : F64 → Bool
is_nan x = ltb (2047 * 2 ^ 52) (magnitude_bits x)

unfoldable pub is_finite : F64 → Bool
is_finite x = ltb (magnitude_bits x) (2047 * 2 ^ 52)

-- The place of a value in the order of the finite and infinite values; both zeros have place 0.
unfoldable pub rank : F64 → ℤ
rank x = if ltb x (2 ^ 63) then pos (magnitude_bits x) else sub_ℕ 0 (magnitude_bits x)

-- `==`, `<` and `<=` of `f64`: false when an operand is a NaN.
unfoldable pub f64_eq : F64 → F64 → Bool
unfolding is_nan rank
f64_eq x y = not (is_nan x) && not (is_nan y) && leb_ℤ (rank x) (rank y) && leb_ℤ (rank y) (rank x)

unfoldable pub f64_lt : F64 → F64 → Bool
unfolding is_nan rank
f64_lt x y = not (is_nan x) && not (is_nan y) && ltb_ℤ (rank x) (rank y)

unfoldable pub f64_le : F64 → F64 → Bool
unfolding is_nan rank
f64_le x y = not (is_nan x) && not (is_nan y) && leb_ℤ (rank x) (rank y)

-- `==` of `Option<f64>`.
unfoldable pub option_f64_eq : Option F64 → Option F64 → Bool
unfolding f64_eq
option_f64_eq none none = true
option_f64_eq none (some y) = false
option_f64_eq (some x) none = false
option_f64_eq (some x) (some y) = f64_eq x y

-- `f64::max` and `f64::min`: an operand that is a NaN is left out.
unfoldable pub f64_max : F64 → F64 → F64
unfolding is_nan f64_lt
f64_max x y = if is_nan x then y else if f64_lt x y then y else x

unfoldable pub f64_min : F64 → F64 → F64
unfolding is_nan f64_lt
f64_min x y = if is_nan x then y else if f64_lt y x then y else x

-- `f64::clamp`.
unfoldable pub clamp : F64 → F64 → F64 → F64
unfolding f64_lt
clamp x lo hi = if f64_lt x lo then lo else if f64_lt hi x then hi else x
