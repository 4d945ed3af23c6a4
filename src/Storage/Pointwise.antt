-- ===== src/Storage/Pointwise.antt =====
-- A keyspace as the function that looks keys up.
use mathlib.Core.Path.{fun_ext}
use disaster_alert.Prelude.{◌≡◌, Option, none, some, if◌then◌else◌, arith}
use disaster_alert.Storage.Keyspace.{Key, Map, get, insert, remove, get-insert, get-remove}

module _ {K : Type 0} ⦃k : Key K⦄ {V : Type 0} where
  abbrev pub put_at : (K → Option V) → K → V → K → Option V
  put_at f key v j = if k.beq key j then some v else f j

  abbrev pub drop_at : (K → Option V) → K → K → Option V
  drop_at f key j = if k.beq key j then none else f j

module _ {K : Type 0} ⦃k : Key K⦄ {V : Type 0} (m : Map K V) (key : K) where
  pub get-insert_all : (v : V) → get (insert m key v) ≡ put_at (get m) key v
  get-insert_all v = fun_ext (λ j. get-insert m key j v)

  pub get-remove_all : get (remove m key) ≡ drop_at (get m) key
  get-remove_all = fun_ext (λ j. get-remove m key j)

module _ {K : Type 0} ⦃k : Key K⦄ {V : Type 0} where
  pub put_at-drop_at :
      (key key' : K)
      → key ≡ key'
      → (f : K → Option V) (v : V) → put_at (drop_at f key) key' v ≡ put_at f key' v
  put_at-drop_at key key' e f v = fun_ext (λ j. rw e (ground arith))
