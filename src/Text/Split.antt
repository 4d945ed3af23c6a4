-- ===== src/Text/Split.antt =====
-- Taking a concatenation apart: at the first colon, and after a known number of bytes.
use disaster_alert.Prelude.{ℕ, ◌≤◌, ◌≡◌, refl, ap, [], ◌∷◌, ◌++◌, arith}
use disaster_alert.Text.{Text, len_utf8, byte_len}
use disaster_alert.Text.Decimal.{IsDigits}

pub split_at_colon :
    (xs ys t u : Text)
    → IsDigits xs
    → IsDigits ys
    → xs ++ b':' ∷ t ≡ ys ++ b':' ∷ u
    → (xs ≡ ys) × (t ≡ u)
split_at_colon [] [] t u hx hy e = (refl, cc)
split_at_colon [] (y ∷ ys) t u hx hy e = absurd (hy.0 (cc))
split_at_colon (x ∷ xs) [] t u hx hy e = absurd (hx.0 (cc))
split_at_colon (x ∷ xs) (y ∷ ys) t u hx hy e =
    let rest = split_at_colon xs ys t u hx.1 hy.1 (cc) in (cc rest.0, rest.1)

len_utf8-pos : (c : ℕ) → 1 ≤ len_utf8 c
unfolding len_utf8
len_utf8-pos c = ground arith

pub split_at_bytes :
    (xs ys t u : Text) → byte_len xs ≡ byte_len ys → xs ++ t ≡ ys ++ u → (xs ≡ ys) × (t ≡ u)
unfolding byte_len
split_at_bytes [] [] t u n e = (refl, e)
split_at_bytes [] (y ∷ ys) t u n e = absurd (omega (arith, len_utf8-pos y))
split_at_bytes (x ∷ xs) [] t u n e = absurd (omega (arith, len_utf8-pos x))
split_at_bytes (x ∷ xs) (y ∷ ys) t u n e =
    let same : x ≡ y = cc in
    let rest = split_at_bytes xs ys t u (omega (arith, ap len_utf8 same)) (cc) in
    (cc (same, rest.0), rest.1)
