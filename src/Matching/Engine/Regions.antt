-- ===== src/Matching/Engine/Regions.antt =====
-- The regions of an event and those of a target have one in common.
use disaster_alert.Prelude.{
  ℕ, ◌<◌, ◌≤◌, ◌≡◌, refl, Bool, true, false, ◌||◌, List, [], ◌∷◌, ◌==◌, ==_iff, ltb, any,
  Bool-cases, inl, inr, arith, ap, sym, ◌∙◌, ◌↔◌,
}
use disaster_alert.Matching.{insert_sorted, sorted_set}
use disaster_alert.Matching.Engine.{regions_intersect, meets}

-- Strictly increasing, from a number above the bound.
IsAbove : ℕ → List ℕ → Type 0
IsAbove bound [] = Unit
IsAbove bound (x ∷ xs) = (bound < x) × IsAbove x xs

IsSorted : List ℕ → Type 0
unfolding IsAbove
IsSorted [] = Unit
IsSorted (x ∷ xs) = IsAbove x xs

insert_sorted-IsAbove :
    (x bound : ℕ) (ys : List ℕ) → bound < x → IsAbove bound ys → IsAbove bound (insert_sorted x ys)
unfolding IsAbove insert_sorted
insert_sorted-IsAbove x bound [] low h = (low, tt)
insert_sorted-IsAbove x bound (y ∷ ys) low h = elim (Bool-cases (ltb x y)) [
  | inl before ↦ rw before (low, (ground (arith, before), h.1))
  | inr behind ↦ elim (Bool-cases (x == y)) [
    | inl same ↦ rw (behind, same) h
    | inr differ ↦
        rw (behind, differ) (h.0, insert_sorted-IsAbove x y ys (ground (arith, behind, differ)) h.1)
  ]
]

insert_sorted-IsSorted : (x : ℕ) (ys : List ℕ) → IsSorted ys → IsSorted (insert_sorted x ys)
unfolding IsSorted IsAbove insert_sorted
insert_sorted-IsSorted x [] h = tt
insert_sorted-IsSorted x (y ∷ ys) h = elim (Bool-cases (ltb x y)) [
  | inl before ↦ rw before (ground (arith, before), h)
  | inr behind ↦ elim (Bool-cases (x == y)) [
    | inl same ↦ rw (behind, same) h
    | inr differ ↦
        rw (behind, differ) (insert_sorted-IsAbove x y ys (ground (arith, behind, differ)) h)
  ]
]

sorted_set-IsSorted : (xs : List ℕ) → IsSorted (sorted_set xs)
unfolding sorted_set IsSorted
sorted_set-IsSorted [] = tt
sorted_set-IsSorted (x ∷ xs) = insert_sorted-IsSorted x (sorted_set xs) (sorted_set-IsSorted xs)

abbrev pub contains : List ℕ → ℕ → Bool
contains xs x = any (λ y. x == y) xs

IsAbove-missing : (x bound : ℕ) (ys : List ℕ) → x ≤ bound → IsAbove bound ys → contains ys x ≡ false
unfolding IsAbove any
IsAbove-missing x bound [] low h = refl
IsAbove-missing x bound (y ∷ ys) low h =
    ground (arith, h.0, IsAbove-missing x y ys (omega (arith, low, h.0)) h.1)

IsAbove-IsSorted : (bound : ℕ) (xs : List ℕ) → IsAbove bound xs → IsSorted xs
unfolding IsAbove IsSorted
IsAbove-IsSorted bound [] h = tt
IsAbove-IsSorted bound (x ∷ xs) h = h.1

common : List ℕ → List ℕ → Bool
common left right = any (contains right) left

common-nil : (left : List ℕ) → common left [] ≡ false
unfolding common any
common-nil [] = refl
common-nil (x ∷ left) = common-nil left

-- A number below all of the left is of no use on the right.
common-low :
    (y bound : ℕ) (ys left : List ℕ)
    → y ≤ bound
    → IsAbove bound left
    → common left (y ∷ ys) ≡ common left ys
unfolding common any IsAbove
common-low y bound ys [] low h = refl
common-low y bound ys (x ∷ left) low h =
    ground (arith, low, h.0, common-low y x ys left (omega (arith, low, h.0)) h.1)

differ_lt : (x y : ℕ) → ltb x y ≡ true → (x == y) ≡ false
differ_lt x y h = ground (arith, h)

common-some :
    (left right : List ℕ)
    → common left right ≡ true
    → (x : ℕ) × (contains left x ≡ true) × (contains right x ≡ true)
unfolding common any
common-some [] right h = absurd (ground (arith, h))
common-some (x ∷ left) right h = elim (Bool-cases (contains right x)) [
  | inl here ↦ (x, ground arith, here)
  | inr missing ↦
      let (y, found, shared) = common-some left right (ground (arith, h, missing)) in
      (y, ground (arith, found), shared)
]

some-common :
    (x : ℕ) (left right : List ℕ)
    → contains left x ≡ true
    → contains right x ≡ true
    → common left right ≡ true
unfolding common any
some-common x [] right found shared = absurd (ground (arith, found))
some-common x (y ∷ left) right found shared = elim (Bool-cases (x == y)) [
  | inl here ↦ rw⁻¹ ((==_iff x y).0 here) (rw shared refl)
  | inr other ↦ ground (arith, some-common x left right (ground (arith, found, other)) shared)
]

module _ (x : ℕ) (left : List ℕ) (rest : List ℕ → Bool)
    (walk : (right : List ℕ) → IsSorted right → rest right ≡ common left right)
    (above : IsAbove x left) where
  meets-common :
      (right : List ℕ)
      → IsSorted right
      → meets x rest right ≡ (contains right x || common left right)
  unfolding meets IsSorted any
  meets-common [] sorted = sym (common-nil left)
  meets-common (y ∷ ys) sorted = elim (Bool-cases (ltb x y)) [
    | inl before ↦
        let missing = IsAbove-missing x y ys (ground (arith, before)) sorted in
        rw (before, missing, differ_lt x y before) (walk (y ∷ ys) sorted)
    | inr behind ↦ elim (Bool-cases (x == y)) [
      | inl same ↦ rw (behind, same) refl
      | inr differ ↦
          rw (behind, differ, common-low y x ys left (ground (arith, behind)) above)
            (meets-common ys (IsAbove-IsSorted y ys sorted))
    ]
  ]

regions_intersect-common :
    (left right : List ℕ)
    → IsSorted left
    → IsSorted right
    → regions_intersect left right ≡ common left right
unfolding regions_intersect IsSorted common any
regions_intersect-common [] right h k = refl
regions_intersect-common (x ∷ left) right h k =
    meets-common x left (regions_intersect left)
      (λ r s. regions_intersect-common left r (IsAbove-IsSorted x left h) s) h right k

contains-insert_sorted :
    (x y : ℕ) (ys : List ℕ) → contains (insert_sorted x ys) y ≡ ((y == x) || contains ys y)
unfolding any insert_sorted
contains-insert_sorted x y [] = refl
contains-insert_sorted x y (z ∷ ys) = ground (arith, contains-insert_sorted x y ys)

contains-sorted_set : (xs : List ℕ) (y : ℕ) → contains (sorted_set xs) y ≡ contains xs y
unfolding any sorted_set
contains-sorted_set [] y = refl
contains-sorted_set (x ∷ xs) y =
    contains-insert_sorted x y (sorted_set xs) ∙ ap (λ b. (y == x) || b) (contains-sorted_set xs y)

-- The regions of two lists, as they are compiled, intersect exactly when the lists have a number in
-- common.
pub regions_intersect_iff :
    (xs ys : List ℕ)
    → (regions_intersect (sorted_set xs) (sorted_set ys) ≡ true)
      ↔ ((x : ℕ) × (contains xs x ≡ true) × (contains ys x ≡ true))
regions_intersect_iff xs ys =
    let e =
      regions_intersect-common (sorted_set xs) (sorted_set ys) (sorted_set-IsSorted xs)
        (sorted_set-IsSorted ys) in
    (
      λ h.
          let (x, left, right) = common-some (sorted_set xs) (sorted_set ys) (sym e ∙ h) in
          (x, sym (contains-sorted_set xs x) ∙ left, sym (contains-sorted_set ys x) ∙ right),
      λ (x, left, right).
          e
          ∙ some-common x (sorted_set xs) (sorted_set ys) (contains-sorted_set xs x ∙ left)
              (contains-sorted_set ys x ∙ right),
    )
