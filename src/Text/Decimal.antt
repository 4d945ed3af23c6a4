-- ===== src/Text/Decimal.antt =====
-- Decimal text of an unsigned number, as `{}` prints it.
use mathlib.Core.List.{reverse, reverse-reverse, reverse-cons}
use disaster_alert.Prelude.{
  ℕ, zero, suc, ◌+◌, ◌-◌, ◌*◌, ◌/◌, ◌%◌, ◌<◌, ◌≡◌, ◌≢◌, sym, ap, ◌∙◌, [], ◌∷◌, ltb, if◌then◌else◌,
  arith, All, All-append, Bool-cases, inl, inr,
}
use disaster_alert.Text.{Text}

-- The digits, the last one first. `n + 1` is fuel enough: a digit at least halves the number.
digits_rev : ℕ → ℕ → Text
digits_rev zero n = []
digits_rev (suc fuel) n =
    let rest = digits_rev fuel (n / 10) in (48 + n % 10) ∷ (if ltb n 10 then [] else rest)

unfoldable pub show : ℕ → Text
unfolding digits_rev
show n = reverse (digits_rev (suc n) n)

read_rev : Text → ℕ
read_rev [] = 0
read_rev (d ∷ ds) = (d - 48) + 10 * read_rev ds

read_rev-digits_rev : (fuel n : ℕ) → n < fuel → read_rev (digits_rev fuel n) ≡ n
unfolding read_rev digits_rev
read_rev-digits_rev zero n h = absurd (omega arith)
read_rev-digits_rev (suc fuel) n h = elim (Bool-cases (ltb n 10)) [
  | inl small ↦ rw small (ground arith)
  | inr large ↦ rw large (ground (arith, read_rev-digits_rev fuel (n / 10)))
]

-- Different numbers print differently.
pub show-injective : (m n : ℕ) → show m ≡ show n → m ≡ n
unfolding show
show-injective m n e =
    sym (read_rev-digits_rev (suc m) m (omega arith))
    ∙ ap read_rev (digits-eq e)
    ∙ read_rev-digits_rev (suc n) n (omega arith)
  where
    digits-eq : show m ≡ show n → digits_rev (suc m) m ≡ digits_rev (suc n) n
    digits-eq p =
        sym (reverse-reverse (digits_rev (suc m) m))
        ∙ ap reverse p
        ∙ reverse-reverse (digits_rev (suc n) n)

abbrev pub IsDigits : Text → Type 0
IsDigits = All (λ c. c ≢ b':')

digits_rev-IsDigits : (fuel n : ℕ) → IsDigits (digits_rev fuel n)
unfolding digits_rev
digits_rev-IsDigits zero n = tt
digits_rev-IsDigits (suc fuel) n = elim (Bool-cases (ltb n 10)) [
  | inl small ↦ rw small (omega arith, tt)
  | inr large ↦ rw large (omega arith, digits_rev-IsDigits fuel (n / 10))
]

reverse-IsDigits : (ds : Text) → IsDigits ds → IsDigits (reverse ds)
reverse-IsDigits [] h = tt
reverse-IsDigits (d ∷ ds) h =
    rw (reverse-cons d ds)
      (All-append (λ c. c ≢ b':') (reverse ds) (d ∷ []) (reverse-IsDigits ds h.1) (h.0, tt))

-- A printed number holds no colon.
pub show-IsDigits : (n : ℕ) → IsDigits (show n)
unfolding show
show-IsDigits n = reverse-IsDigits (digits_rev (suc n) n) (digits_rev-IsDigits (suc n) n)
