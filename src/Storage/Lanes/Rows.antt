-- ===== src/Storage/Lanes/Rows.antt =====
-- How often a row stands in a list, and the sets of rows.
use disaster_alert.Prelude.{
  ℕ, zero, suc, ◌+◌, ◌≤◌, ◌<◌, ◌≡◌, ◌↔◌, refl, Bool, true, List, [], ◌∷◌, ◌++◌, ◌==◌, ltb,
  if◌then◌else◌, length, all, Bool-cases, inl, inr, arith, ◌∙◌,
}
use disaster_alert.Storage.Lanes.{contains_row, row_set, same_rows}

abbrev pub times : ℕ → List ℕ → ℕ
times i [] = 0
times i (row ∷ rows) = (if row == i then 1 else 0) + times i rows

pub times-append : (i : ℕ) (xs ys : List ℕ) → times i (xs ++ ys) ≡ times i xs + times i ys
times-append i [] ys = omega arith
times-append i (x ∷ xs) ys = ground (arith, times-append i xs ys)

pub contains_row-times : (rows : List ℕ) (i : ℕ) → contains_row rows i ≡ ltb 0 (times i rows)
unfolding contains_row
contains_row-times [] i = ground arith
contains_row-times (row ∷ rows) i = ground (arith, contains_row-times rows i)

pub contains_row-row_set :
    (rows : List ℕ) (i : ℕ) → contains_row (row_set rows) i ≡ contains_row rows i
unfolding row_set contains_row
contains_row-row_set [] i = refl
contains_row-row_set (row ∷ rows) i =
    ground (arith, contains_row-row_set rows i, contains_row-row_set rows row)

length-row_set-le : (rows : List ℕ) → length (row_set rows) ≤ length rows
unfolding row_set
length-row_set-le [] = omega arith
length-row_set-le (row ∷ rows) = ground (arith, length-row_set-le rows)

-- The set is as long as the list only if no row stands twice.
pub times-le-one : (rows : List ℕ) (i : ℕ) → length (row_set rows) ≡ length rows → times i rows ≤ 1
unfolding row_set
times-le-one [] i h = omega arith
times-le-one (row ∷ rows) i h = ground (
  arith,
  length-row_set-le rows,
  times-le-one rows i,
  contains_row-row_set rows row,
  contains_row-times rows row,
)

all-contains :
    (test : ℕ → Bool) (xs : List ℕ) (i : ℕ)
    → all test xs ≡ true
    → contains_row xs i ≡ true
    → test i ≡ true
unfolding all contains_row
all-contains test [] i h k = ground arith
all-contains test (x ∷ xs) i h k = elim (Bool-cases (x == i)) [
  | inl same ↦ ground (arith, same)
  | inr other ↦ all-contains test xs i (ground (arith, other)) (ground (arith, other))
]

pub same_rows-contains :
    (xs ys : List ℕ) (i : ℕ)
    → same_rows xs ys ≡ true
    → (contains_row xs i ≡ true) ↔ (contains_row ys i ≡ true)
unfolding same_rows
same_rows-contains xs ys i h = (
  all-contains (contains_row ys) xs i (ground arith),
  all-contains (contains_row xs) ys i (ground arith),
)

-- The places below `n`, counted as often as they stand in the list.
total : ℕ → List ℕ → ℕ
total zero rows = 0
total (suc n) rows = times n rows + total n rows

total-nil : (n : ℕ) → total n [] ≡ 0
unfolding total
total-nil zero = omega arith
total-nil (suc n) = omega (arith, total-nil n)

total-cons :
    (n row : ℕ) (rows : List ℕ) → total n (row ∷ rows) ≡ (if ltb row n then 1 else 0) + total n rows
unfolding total
total-cons zero row rows = ground arith
total-cons (suc n) row rows = ground (arith, total-cons n row rows)

total-length :
    (n : ℕ) (rows : List ℕ) → ((i : ℕ) → 1 ≤ times i rows → i < n) → total n rows ≡ length rows
total-length n [] h = omega (arith, total-nil n)
total-length n (row ∷ rows) h =
    ground
      (arith, h row, total-cons n row rows, total-length n rows (λ i k. h i (ground (arith, k))))

total-le : (n : ℕ) (rows : List ℕ) → ((i : ℕ) → times i rows ≤ 1) → total n rows ≤ n
unfolding total
total-le zero rows h = omega arith
total-le (suc n) rows h = omega (arith, h n, total-le n rows h)

total-full :
    (n : ℕ) (rows : List ℕ) (i : ℕ)
    → ((j : ℕ) → times j rows ≤ 1)
    → total n rows ≡ n
    → i < n
    → 1 ≤ times i rows
unfolding total
total-full zero rows i h e k = absurd (omega arith)
total-full (suc n) rows i h e k = elim (Bool-cases (n == i)) [
  | inl last ↦ ground (arith, h n, total-le n rows h)
  | inr earlier ↦ total-full n rows i h (omega (arith, h n, total-le n rows h)) (ground arith)
]

-- A list of `n` different places below `n` has each of them.
pub times-full :
    (n : ℕ) (rows : List ℕ) (i : ℕ)
    → ((j : ℕ) → (times j rows ≤ 1) × (1 ≤ times j rows → j < n))
    → length rows ≡ n
    → i < n
    → 1 ≤ times i rows
times-full n rows i h e k =
    total-full n rows i (λ j. (h j).0) (total-length n rows (λ j. (h j).1) ∙ e) k
