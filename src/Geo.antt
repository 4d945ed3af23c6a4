-- ===== src/Geo.antt =====
-- src/utils/distance.rs: distances on the ellipsoid.
--
-- The arithmetic of `f64` is an argument, `FloatOps`; its literals and tests are those of
-- Event/Float.antt. A literal is written as its bit pattern.
use disaster_alert.Prelude.{
  ℕ, zero, suc, ◌^◌, ◌%◌, Bool, not, ◌&&◌, Option, none, some, if◌then◌else◌,
}
use disaster_alert.Event.Float.{F64, is_finite, f64_lt, f64_le, f64_eq}

pub record FloatOps : Type 0 where
  pub add : F64 → F64 → F64
  pub sub : F64 → F64 → F64
  pub mul : F64 → F64 → F64
  pub div : F64 → F64 → F64
  pub sqrt : F64 → F64
  pub sin : F64 → F64
  pub cos : F64 → F64
  pub tan : F64 → F64
  pub atan : F64 → F64
  pub atan2 : F64 → F64 → F64
  pub to_radians : F64 → F64
  -- `as f64` of an unsigned integer.
  pub from_u64 : ℕ → F64

-- `f64::abs` clears the sign.
unfoldable pub abs : F64 → F64
abs x = x % 2 ^ 63

-- 0.0
abbrev zero_ : F64
zero_ = 0x0

-- 0.25
abbrev quarter : F64
quarter = 0x3fd0000000000000

-- 1.0
abbrev one : F64
one = 0x3ff0000000000000

-- 2.0
abbrev two : F64
two = 0x4000000000000000

-- 3.0
abbrev three : F64
three = 0x4008000000000000

-- 4.0
abbrev four : F64
four = 0x4010000000000000

-- 6.0
abbrev six : F64
six = 0x4018000000000000

-- 16.0
abbrev sixteen : F64
sixteen = 0x4030000000000000

-- -1.0
abbrev minus_one : F64
minus_one = 0xbff0000000000000

-- -3.0
abbrev minus_three : F64
minus_three = 0xc008000000000000

-- 90.0
abbrev ninety : F64
ninety = 0x4056800000000000

-- -90.0
abbrev minus_90 : F64
minus_90 = 0xc056800000000000

-- 180.0
abbrev n180 : F64
n180 = 0x4066800000000000

-- -180.0
abbrev minus_180 : F64
minus_180 = 0xc066800000000000

-- 360.0
abbrev n360 : F64
n360 = 0x4076800000000000

-- 1e-9
abbrev nano : F64
nano = 0x3e112e0be826d695

-- 1e-6
abbrev micro : F64
micro = 0x3eb0c6f7a0b5ed8d

-- 1e-12
abbrev tolerance : F64
tolerance = 0x3d719799812dea11

-- 1e-24
abbrev epsilon : F64
epsilon = 0x3af357c299a88ea7

-- 1000.0
abbrev n1000 : F64
n1000 = 0x408f400000000000

-- 47.0
abbrev n47 : F64
n47 = 0x4047800000000000

-- 74.0
abbrev n74 : F64
n74 = 0x4052800000000000

-- -128.0
abbrev minus_128 : F64
minus_128 = 0xc060000000000000

-- 175.0
abbrev n175 : F64
n175 = 0x4065e00000000000

-- 256.0
abbrev n256 : F64
n256 = 0x4070000000000000

-- 320.0
abbrev n320 : F64
n320 = 0x4074000000000000

-- -768.0
abbrev minus_768 : F64
minus_768 = 0xc088000000000000

-- 1024.0
abbrev n1024 : F64
n1024 = 0x4090000000000000

-- 4096.0
abbrev n4096 : F64
n4096 = 0x40b0000000000000

-- 16384.0
abbrev n16384 : F64
n16384 = 0x40d0000000000000

-- 6378137.0
abbrev axis_a : F64
axis_a = 0x415854a640000000

-- 6356752.314245
abbrev axis_b : F64
axis_b = 0x41583fc4141c970f

-- 298.257223563
abbrev inverse_flattening : F64
inverse_flattening = 0x4072a41d96746d88

unfoldable pub in_range : F64 → F64 → F64 → Bool
unfolding f64_le
in_range lo hi x = f64_le lo x && f64_le x hi

unfoldable pub validate_coordinates : F64 → F64 → Bool
unfolding in_range is_finite
validate_coordinates lat lon =
    is_finite lat && is_finite lon && in_range minus_90 ninety lat && in_range minus_180 n180 lon

-- The values with which the iteration ends.
pub record Converged : Type 0 where
  pub sin_sigma : F64
  pub cos_sigma : F64
  pub sigma : F64
  pub cos_sq_alpha : F64
  pub cos2_sigma_m : F64

pub data Iteration : Type 0 where
  returns : Option F64 → Iteration
  breaks : Converged → Iteration

module _ (o : FloatOps) where
  open o use {add, sub, mul, div, sqrt, sin, cos, tan, atan, atan2, to_radians}

  infixl 65 ◌⊕◌ ◌⊖◌
  infixl 70 ◌⊗◌ ◌⊘◌
  abbrev ◌⊕◌ : F64 → F64 → F64
  x ⊕ y = add x y

  abbrev ◌⊖◌ : F64 → F64 → F64
  x ⊖ y = sub x y

  abbrev ◌⊗◌ : F64 → F64 → F64
  x ⊗ y = mul x y

  abbrev ◌⊘◌ : F64 → F64 → F64
  x ⊘ y = div x y

  abbrev flattening : F64
  flattening = one ⊘ inverse_flattening

  -- The loop; its fuel is `iter_limit`, which the source counts down from 100 to the failure at 0.
  vincenty_loop :
      ℕ → (l sin_u1 cos_u1 sin_u2 cos_u2 lat_diff lon_diff : F64) → (lambda : F64) → Iteration
  unfolding f64_lt f64_eq abs
  vincenty_loop zero l sin_u1 cos_u1 sin_u2 cos_u2 lat_diff lon_diff lambda = returns none
  vincenty_loop (suc iter) l sin_u1 cos_u1 sin_u2 cos_u2 lat_diff lon_diff lambda =
      let sin_lambda = sin lambda in
      let cos_lambda = cos lambda in
      let term1 = cos_u2 ⊗ sin_lambda in
      let term2 = cos_u1 ⊗ sin_u2 ⊖ sin_u1 ⊗ cos_u2 ⊗ cos_lambda in
      let sin_sq_sigma = term1 ⊗ term1 ⊕ term2 ⊗ term2 in
      let sin_sigma = sqrt sin_sq_sigma in
      let cos_sigma = sin_u1 ⊗ sin_u2 ⊕ cos_u1 ⊗ cos_u2 ⊗ cos_lambda in
      let sigma = atan2 sin_sigma cos_sigma in
      let sin_alpha = cos_u1 ⊗ cos_u2 ⊗ sin_lambda ⊘ sin_sigma in
      let cos_sq_alpha = one ⊖ sin_alpha ⊗ sin_alpha in
      let cos2_sigma_m =
        if f64_eq cos_sq_alpha zero_
        then zero_
        else cos_sigma ⊖ two ⊗ sin_u1 ⊗ sin_u2 ⊘ cos_sq_alpha in
      let c =
        flattening ⊘ sixteen ⊗ cos_sq_alpha ⊗ (four ⊕ flattening ⊗ (four ⊖ three ⊗ cos_sq_alpha)) in
      let cos2_sigma_m_sq = cos2_sigma_m ⊗ cos2_sigma_m in
      let lambda_new =
        l
        ⊕ (one ⊖ c)
          ⊗ flattening
          ⊗ sin_alpha
          ⊗ (sigma
              ⊕ c
                ⊗ sin_sigma
                ⊗ (cos2_sigma_m ⊕ c ⊗ cos_sigma ⊗ (minus_one ⊕ two ⊗ cos2_sigma_m_sq))) in
      let next = vincenty_loop iter l sin_u1 cos_u1 sin_u2 cos_u2 lat_diff lon_diff lambda_new in
      if f64_lt sin_sq_sigma epsilon && f64_lt lat_diff nano && f64_lt lon_diff micro
      then returns (some zero_)
      else if f64_lt sin_sq_sigma epsilon
      then returns none
      else if f64_lt (abs (lambda_new ⊖ lambda)) tolerance
      then breaks (record {
        sin_sigma = sin_sigma;
        cos_sigma = cos_sigma;
        sigma = sigma;
        cos_sq_alpha = cos_sq_alpha;
        cos2_sigma_m = cos2_sigma_m;
      })
      else next

  -- The distance in kilometres from the converged values.
  ellipsoid_arc : Converged → F64
  ellipsoid_arc v =
      let a_sq = axis_a ⊗ axis_a in
      let b_sq = axis_b ⊗ axis_b in
      let u_sq = v.cos_sq_alpha ⊗ (a_sq ⊖ b_sq) ⊘ b_sq in
      let k1 = u_sq ⊗ (minus_768 ⊕ u_sq ⊗ (n320 ⊖ n175 ⊗ u_sq)) in
      let big_a = one ⊕ u_sq ⊘ n16384 ⊗ (n4096 ⊕ k1) in
      let k2 = u_sq ⊗ (minus_128 ⊕ u_sq ⊗ (n74 ⊖ n47 ⊗ u_sq)) in
      let big_b = u_sq ⊘ n1024 ⊗ (n256 ⊕ k2) in
      let cos2_sigma_m_sq = v.cos2_sigma_m ⊗ v.cos2_sigma_m in
      let sin_sigma_sq = v.sin_sigma ⊗ v.sin_sigma in
      let delta_sigma =
        big_b
        ⊗ v.sin_sigma
        ⊗ (v.cos2_sigma_m
            ⊕ quarter
              ⊗ big_b
              ⊗ (v.cos_sigma ⊗ (minus_one ⊕ two ⊗ cos2_sigma_m_sq)
                  ⊖ big_b
                    ⊘ six
                    ⊗ v.cos2_sigma_m
                    ⊗ (minus_three ⊕ four ⊗ sin_sigma_sq)
                    ⊗ (minus_three ⊕ four ⊗ cos2_sigma_m_sq))) in
      axis_b ⊗ big_a ⊗ (v.sigma ⊖ delta_sigma) ⊘ n1000

  finish : Iteration → Option F64
  unfolding ellipsoid_arc
  finish (returns result) = result
  finish (breaks v) = some (ellipsoid_arc v)

  -- The iteration between two points that do not coincide.
  vincenty_general : (lat1 lon1 lat2 lon2 lat_diff lon_diff : F64) → Option F64
  unfolding vincenty_loop finish
  vincenty_general lat1 lon1 lat2 lon2 lat_diff lon_diff =
      let l = to_radians lon2 ⊖ to_radians lon1 in
      let u1 = atan ((one ⊖ flattening) ⊗ tan (to_radians lat1)) in
      let u2 = atan ((one ⊖ flattening) ⊗ tan (to_radians lat2)) in
      finish (vincenty_loop 100 l (sin u1) (cos u1) (sin u2) (cos u2) lat_diff lon_diff l)

  unfoldable pub vincenty_distance : (lat1 lon1 lat2 lon2 : F64) → Option F64
  unfolding validate_coordinates abs f64_lt vincenty_general
  vincenty_distance lat1 lon1 lat2 lon2 =
      let lat_diff = abs (lat1 ⊖ lat2) in
      let lon_gap = abs (lon1 ⊖ lon2) in
      let lon_diff = if f64_lt n180 lon_gap then n360 ⊖ lon_gap else lon_gap in
      if not (validate_coordinates lat1 lon1 && validate_coordinates lat2 lon2)
      then none
      else if f64_lt lat_diff nano && f64_lt lon_diff nano
      then some zero_
      else if f64_lt (abs (abs lat1 ⊖ ninety)) nano
          && f64_lt (abs (abs lat2 ⊖ ninety)) nano
          && f64_lt lat_diff nano
      then some zero_
      else vincenty_general lat1 lon1 lat2 lon2 lat_diff lon_diff
