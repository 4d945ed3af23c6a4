-- ===== src/Prelude/Finds.antt =====
-- Searching a list, replacing the first hit, and appending where there is none.
use mathlib.Core.Path.{◌≡◌, refl}
use mathlib.Core.Logic.{inl, inr}
use mathlib.Core.List.{List, [], ◌∷◌, ◌++◌}
use mathlib.Core.Option.{none, some}
use mathlib.Core.Bool.{Bool, true, false, ◌||◌}
use native.Mathlib.Omega.{arith}
use disaster_alert.Prelude.Tests.{Bool-cases}
use disaster_alert.Prelude.Lists.{any, find?, modify_first, length, All}

module _ {ℓ} {A : Type ℓ} (test : A → Bool) where
  pub find?-eq-none : (xs : List A) → any test xs ≡ false → find? test xs ≡ none
  unfolding any find?
  find?-eq-none [] h = refl
  find?-eq-none (x ∷ xs) h = ground (arith, find?-eq-none xs)

  pub any-of-find? : (xs : List A) (x : A) → find? test xs ≡ some x → any test xs ≡ true
  unfolding any find?
  any-of-find? [] x h = ground arith
  any-of-find? (y ∷ xs) x h = ground (arith, any-of-find? xs x)

  pub none-of-find? : (xs : List A) → find? test xs ≡ none → any test xs ≡ false
  unfolding any find?
  none-of-find? [] h = refl
  none-of-find? (y ∷ xs) h = ground (arith, none-of-find? xs)

  pub test-find? : (xs : List A) (x : A) → find? test xs ≡ some x → test x ≡ true
  unfolding find?
  test-find? [] x h = ground arith
  test-find? (y ∷ xs) x h = ground (arith, test-find? xs x)

  pub any-append : (xs ys : List A) → any test (xs ++ ys) ≡ (any test xs || any test ys)
  unfolding any
  any-append [] ys = refl
  any-append (x ∷ xs) ys = ground (arith, any-append xs ys)

  pub find?-append_last :
      (xs : List A) (y : A)
      → any test xs ≡ false
      → test y ≡ true
      → find? test (xs ++ y ∷ []) ≡ some y
  unfolding any find?
  find?-append_last [] y h t = ground arith
  find?-append_last (x ∷ xs) y h t = ground (arith, find?-append_last xs y)

  pub find?-All {κ} :
      (P : A → Type κ) (xs : List A) (x : A) → All P xs → find? test xs ≡ some x → P x
  unfolding find?
  find?-All P [] x h e = absurd (ground arith)
  find?-All P (y ∷ xs) x h e = elim (Bool-cases (test y)) [
    | inl hit ↦ ground (arith, h.0)
    | inr miss ↦ find?-All P xs x h.1 (ground arith)
  ]

module _ {ℓ} {A : Type ℓ} (test : A → Bool) (f : A → A) where
  pub length-modify_first : (xs : List A) → length (modify_first test f xs) ≡ length xs
  unfolding modify_first
  length-modify_first [] = refl
  length-modify_first (x ∷ xs) = ground (arith, length-modify_first xs)

  pub All-modify_first {κ} :
      (P : A → Type κ) (xs : List A)
      → ((x : A) → P x → P (f x))
      → All P xs
      → All P (modify_first test f xs)
  unfolding modify_first
  All-modify_first P [] k h = h
  All-modify_first P (x ∷ xs) k h = elim (Bool-cases (test x)) [
    | inl hit ↦ rw hit (k x h.0, h.1)
    | inr miss ↦ rw miss (h.0, All-modify_first P xs k h.1)
  ]

  -- A test that the change does not touch finds the changed element.
  pub find?-modify_first :
      (xs : List A) (x : A)
      → ((y : A) → test y ≡ true → test (f y) ≡ true)
      → find? test xs ≡ some x
      → find? test (modify_first test f xs) ≡ some (f x)
  unfolding modify_first find?
  find?-modify_first [] x k h = ground arith
  find?-modify_first (y ∷ xs) x k h = ground (arith, find?-modify_first xs x k, k y)

  pub any-modify_first :
      (q : A → Bool) (xs : List A)
      → ((y : A) → test y ≡ true → q (f y) ≡ q y)
      → any q (modify_first test f xs) ≡ any q xs
  unfolding modify_first any
  any-modify_first q [] k = refl
  any-modify_first q (y ∷ xs) k = ground (arith, any-modify_first q xs k, k y)
