-- ===== src/Storage/Keyspace.antt =====
-- Keyspaces: finite maps as lists of entries in the order of their keys.
use disaster_alert.Prelude.{
  ℕ, ◌+◌, ◌≡◌, ◌↔◌, refl, Bool, true, false, ◌&&◌, ◌||◌, Option, none, some, List, [], ◌∷◌, ◌==◌,
  ==_iff, ltb, if◌then◌else◌, arith, Bool-cases, Option-cases, inl, inr,
}
use disaster_alert.Text.{Text, text_eq, text_eq_iff}

-- The order of keys; only the test for equality has to be right for the laws below.
pub record Key (K : Type 0) : Type 0 where
  pub beq : K → K → Bool
  pub before : K → K → Bool
  pub beq_iff : (a b : K) → (beq a b ≡ true) ↔ (a ≡ b)

instance abbrev pub nat_key : Key ℕ
nat_key = record { beq = ◌==◌; before = ltb; beq_iff = ==_iff }

unfoldable pub text_before : Text → Text → Bool
text_before [] [] = false
text_before [] (y ∷ ys) = true
text_before (x ∷ xs) [] = false
text_before (x ∷ xs) (y ∷ ys) = ltb x y || (x == y && text_before xs ys)

instance abbrev pub text_key : Key Text
text_key = record { beq = text_eq; before = text_before; beq_iff = text_eq_iff }

pub pair_eq_iff :
    {A B : Type 0} ⦃k : Key A⦄ ⦃l : Key B⦄ (a b : A × B)
    → ((k.beq a.0 b.0 && l.beq a.1 b.1) ≡ true) ↔ (a ≡ b)
pair_eq_iff ⦃k⦄ ⦃l⦄ (a, c) (b, d) = ground (arith, k.beq_iff a b, l.beq_iff c d)

-- Keys of a fixed width, one after the other.
instance abbrev pub pair_key : {A B : Type 0} ⦃k : Key A⦄ ⦃l : Key B⦄ → Key (A × B)
pair_key ⦃k⦄ ⦃l⦄ = record {
  beq = λ a b. k.beq a.0 b.0 && l.beq a.1 b.1;
  before = λ a b. k.before a.0 b.0 || (k.beq a.0 b.0 && l.before a.1 b.1);
  beq_iff = pair_eq_iff ⦃k = k⦄ ⦃l = l⦄;
}

abbrev pub Map : Type 0 → Type 0 → Type 0
Map K V = List (K × V)

pub beq_refl : {K : Type 0} ⦃k : Key K⦄ (a : K) → k.beq a a ≡ true
beq_refl ⦃k⦄ a = (k.beq_iff a a).1 refl

module _ {K : Type 0} ⦃k : Key K⦄ {V : Type 0} where
  unfoldable pub get : Map K V → K → Option V
  get [] key = none
  get ((j, v) ∷ m) key = if k.beq j key then some v else get m key

  -- A new entry goes before the first later key.
  insert_new : Map K V → K → V → Map K V
  insert_new [] key v = (key, v) ∷ []
  insert_new ((j, w) ∷ m) key v =
      let later = insert_new m key v in
      if k.before key j then (key, v) ∷ (j, w) ∷ m else (j, w) ∷ later

  replace : Map K V → K → V → Map K V
  replace [] key v = []
  replace ((j, w) ∷ m) key v =
      let later = replace m key v in if k.beq j key then (key, v) ∷ m else (j, w) ∷ later

  -- An entry that is there is replaced where it stands.
  unfoldable pub insert : Map K V → K → V → Map K V
  unfolding insert_new replace get
  insert m key v = elim (get m key) [ none ↦ insert_new m key v | some _ ↦ replace m key v ]

  unfoldable pub remove : Map K V → K → Map K V
  remove [] key = []
  remove ((j, v) ∷ m) key = let rest = remove m key in if k.beq j key then rest else (j, v) ∷ rest

  get-insert_new :
      (m : Map K V) (key j : K) (v : V)
      → get m key ≡ none
      → get (insert_new m key v) j ≡ (if k.beq key j then some v else get m j)
  unfolding get insert_new
  get-insert_new [] key j v h = refl
  get-insert_new ((i, w) ∷ m) key j v h =
      ground (arith, k.beq_iff key j, k.beq_iff i key, k.beq_iff i j, get-insert_new m key j v)

  get-replace :
      (m : Map K V) (key j : K) (v w : V)
      → get m key ≡ some w
      → get (replace m key v) j ≡ (if k.beq key j then some v else get m j)
  unfolding get replace
  get-replace [] key j v w h = ground arith
  get-replace ((i, u) ∷ m) key j v w h =
      ground (arith, k.beq_iff key j, k.beq_iff i key, k.beq_iff i j, get-replace m key j v w)

  pub get-insert :
      (m : Map K V) (key j : K) (v : V)
      → get (insert m key v) j ≡ (if k.beq key j then some v else get m j)
  unfolding insert
  get-insert m key j v = elim (Option-cases (get m key)) [
    | inl missing ↦ rw (missing, insert) (get-insert_new m key j v missing)
    | inr (w, found) ↦ rw (found, insert) (get-replace m key j v w found)
  ]

  pub get-remove :
      (m : Map K V) (key j : K) → get (remove m key) j ≡ (if k.beq key j then none else get m j)
  unfolding get remove
  get-remove [] key j = ground arith
  get-remove ((i, w) ∷ m) key j =
      ground (arith, k.beq_iff key j, k.beq_iff i key, k.beq_iff i j, get-remove m key j)

  pub get-insert_self : (m : Map K V) (key : K) (v : V) → get (insert m key v) key ≡ some v
  get-insert_self m key v = simp (get-insert, beq_refl)

  pub get-remove_self : (m : Map K V) (key : K) → get (remove m key) key ≡ none
  get-remove_self m key = simp (get-remove, beq_refl)

  -- How many entries pass a test.
  unfoldable pub count : (V → Bool) → Map K V → ℕ
  count test [] = 0
  count test ((j, v) ∷ m) = (if test v then 1 else 0) + count test m

  -- No key stands twice.
  abbrev pub Distinct : Map K V → Type 0
  Distinct [] = Unit
  Distinct ((j, v) ∷ m) = (get m j ≡ none) × Distinct m

  pub remove-none : (m : Map K V) (key : K) → get m key ≡ none → remove m key ≡ m
  unfolding get remove
  remove-none [] key h = refl
  remove-none ((j, v) ∷ m) key h = ground (arith, remove-none m key)

  insert_new-Distinct :
      (m : Map K V) (key : K) (v : V)
      → get m key ≡ none
      → Distinct m
      → Distinct (insert_new m key v)
  unfolding get insert_new
  insert_new-Distinct [] key v h d = (refl, tt)
  insert_new-Distinct ((j, w) ∷ m) key v h d = elim (Bool-cases (k.before key j)) [
    | inl first ↦ rw first (h, d)
    | inr later ↦ rw later (
      ground (arith, get-insert_new m key j v, k.beq_iff j key, k.beq_iff key j, d.0),
      insert_new-Distinct m key v (ground arith) d.1,
    )
  ]

  replace-none :
      (j : K) (m : Map K V) (key : K) (v : V)
      → k.beq j key ≡ false
      → get m j ≡ none
      → get (replace m key v) j ≡ none
  unfolding get replace
  replace-none j [] key v e h = refl
  replace-none j ((i, w) ∷ m) key v e h =
      ground (arith, k.beq_iff i j, k.beq_iff i key, k.beq_iff j key, replace-none j m key v e)

  replace-Distinct : (m : Map K V) (key : K) (v : V) → Distinct m → Distinct (replace m key v)
  unfolding get replace
  replace-Distinct [] key v d = tt
  replace-Distinct ((j, w) ∷ m) key v d = elim (Bool-cases (k.beq j key)) [
    | inl same ↦ rw same (rw (← (k.beq_iff j key).0 same) d.0, d.1)
    | inr differs ↦ rw differs (replace-none j m key v differs d.0, replace-Distinct m key v d.1)
  ]

  pub insert-Distinct : (m : Map K V) (key : K) (v : V) → Distinct m → Distinct (insert m key v)
  unfolding insert
  insert-Distinct m key v d = elim (Option-cases (get m key)) [
    | inl missing ↦ rw (missing, insert) (insert_new-Distinct m key v missing d)
    | inr (w, found) ↦ rw (found, insert) (replace-Distinct m key v d)
  ]

  pub remove-Distinct : (m : Map K V) (key : K) → Distinct m → Distinct (remove m key)
  unfolding remove
  remove-Distinct [] key d = tt
  remove-Distinct ((j, w) ∷ m) key d = elim (Bool-cases (k.beq j key)) [
    | inl same ↦ rw same (remove-Distinct m key d.1)
    | inr differs ↦ rw differs (ground (arith, get-remove m key j, d.0), remove-Distinct m key d.1)
  ]

  count-insert_new :
      (test : V → Bool) (m : Map K V) (key : K) (v : V)
      → count test (insert_new m key v) ≡ (if test v then 1 else 0) + count test m
  unfolding insert_new count
  count-insert_new test [] key v = refl
  count-insert_new test ((j, w) ∷ m) key v = ground (arith, count-insert_new test m key v)

  pub count-insert :
      (test : V → Bool) (m : Map K V) (key : K) (v : V)
      → get m key ≡ none
      → count test (insert m key v) ≡ (if test v then 1 else 0) + count test m
  unfolding insert
  count-insert test m key v h = rw (h, insert) (count-insert_new test m key v)

  pub count-remove :
      (test : V → Bool) (m : Map K V) (key : K) (v : V)
      → Distinct m
      → get m key ≡ some v
      → count test (remove m key) + (if test v then 1 else 0) ≡ count test m
  unfolding get remove count
  count-remove test [] key v d h = ground arith
  count-remove test ((j, w) ∷ m) key v d h =
      ground (arith, count-remove test m key v d.1, remove-none m key, k.beq_iff j key, d.0)

pub ruleset map_laws = (get-insert, get-remove, get-insert_self, get-remove_self)
