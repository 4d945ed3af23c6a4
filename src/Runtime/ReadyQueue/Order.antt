-- ===== src/Runtime/ReadyQueue/Order.antt =====
-- The order and the bounds of the queue, over any sequence of calls.
use disaster_alert.Prelude.{
  ℕ, ◌≤◌, ◌<◌, ◌≡◌, refl, sym, ◌∙◌, ap, Bool, true, false, Option, none, some, List, [], ◌∷◌, ◌++◌,
  leb, ◌||◌, length, length-append, arith, Bool-cases, inl, inr,
}
use disaster_alert.Runtime.ReadyQueue.{ReadyQueue, try_push, pop, pop_front, push_unless}

pub data Call (T : Type 0) : Type 0 where
  push : T → Call T
  take : Call T

-- The values accepted and the values handed out, in order, and the queue behind the calls.
pub record Trace (T : Type 0) : Type 0 where
  pub accepted : List T
  pub popped : List T
  pub final : ReadyQueue T

accepting : {T : Type 0} → Bool → T → Trace T → Trace T
accepting true value t = record t { accepted = value ∷ t.accepted }
accepting false value t = t

popping : {T : Type 0} → Option T → Trace T → Trace T
popping none t = t
popping (some value) t = record t { popped = value ∷ t.popped }

module _ {T : Type 0} (item_bytes : ℕ) where
  unfoldable pub run : List (Call T) → ReadyQueue T → Trace T
  unfolding try_push pop accepting popping
  run [] q = record { accepted = []; popped = []; final = q }
  run (push value ∷ calls) q =
      accepting (try_push item_bytes value q).0 value (run calls (try_push item_bytes value q).1)
  run (take ∷ calls) q = popping (pop item_bytes q).0 (run calls (pop item_bytes q).1)

  unfoldable pub InOrder : List T → Trace T → Type 0
  InOrder waiting t = waiting ++ t.accepted ≡ t.popped ++ t.final.values

  append_one : (xs : List T) (x : T) (ys : List T) → (xs ++ x ∷ []) ++ ys ≡ xs ++ x ∷ ys
  append_one [] x ys = refl
  append_one (y ∷ xs) x ys = ap (λ zs. y ∷ zs) (append_one xs x ys)

  push_step :
      (full : Bool) (bytes : ℕ) (value : T) (q : ReadyQueue T) (t : Trace T)
      → InOrder (push_unless item_bytes full bytes value q).1.values t
      → InOrder q.values (accepting (push_unless item_bytes full bytes value q).0 value t)
  unfolding push_unless accepting InOrder
  push_step true bytes value q t h = h
  push_step false bytes value q t h = sym (append_one q.values value t.accepted) ∙ h

  pop_step :
      (waiting : List T) (q : ReadyQueue T) (t : Trace T)
      → InOrder (pop_front item_bytes waiting q).1.values t
      → InOrder waiting (popping (pop_front item_bytes waiting q).0 t)
  unfolding pop_front popping InOrder
  pop_step [] q t h = h
  pop_step (value ∷ rest) q t h = ap (λ zs. value ∷ zs) h

  append_nil : (xs : List T) → xs ++ [] ≡ xs
  append_nil [] = refl
  append_nil (x ∷ xs) = ap (λ zs. x ∷ zs) (append_nil xs)

  end : (q : ReadyQueue T) → InOrder q.values (record { accepted = []; popped = []; final = q })
  unfolding InOrder
  end q = append_nil q.values

  -- Over any calls, the values waiting at the start followed by those accepted are the values
  -- handed out followed by those waiting at the end, all in order.
  pub run-InOrder : (calls : List (Call T)) (q : ReadyQueue T) → InOrder q.values (run calls q)
  unfolding run try_push pop
  run-InOrder [] q = end q
  run-InOrder (push value ∷ calls) q =
      push_step _ _ value q _ (run-InOrder calls (try_push item_bytes value q).1)
  run-InOrder (take ∷ calls) q = pop_step q.values q _ (run-InOrder calls (pop item_bytes q).1)

  unfoldable pub IsWithin : ReadyQueue T → Type 0
  IsWithin q = length q.values ≤ q.capacity_count

  pushed :
      (room : Bool) (bytes : ℕ) (value : T) (q : ReadyQueue T)
      → length q.values < q.capacity_count
      → IsWithin (push_unless item_bytes room bytes value q).1
  unfolding push_unless IsWithin
  pushed true bytes value q h = omega (arith, h)
  pushed false bytes value q h = omega (arith, h, length-append q.values (value ∷ []))

  push-IsWithin :
      (room : Bool) (bytes : ℕ) (value : T) (q : ReadyQueue T)
      → IsWithin q
      → IsWithin
          (push_unless item_bytes (leb q.capacity_count (length q.values) || room) bytes value q).1
  unfolding push_unless IsWithin
  push-IsWithin room bytes value q w = elim (Bool-cases (leb q.capacity_count (length q.values))) [
    | inl full ↦ rw full w
    | inr space ↦ rw space (pushed room bytes value q (ground (arith, space)))
  ]

  try_push-IsWithin :
      (value : T) (q : ReadyQueue T) → IsWithin q → IsWithin (try_push item_bytes value q).1
  unfolding try_push
  try_push-IsWithin value q w = push-IsWithin _ _ value q w

  pop_front-IsWithin :
      (waiting : List T) (q : ReadyQueue T)
      → length waiting ≤ q.capacity_count
      → IsWithin (pop_front item_bytes waiting q).1
  unfolding pop_front IsWithin
  pop_front-IsWithin [] q w = w
  pop_front-IsWithin (value ∷ rest) q w = omega (arith, w)

  pop-IsWithin : (q : ReadyQueue T) → IsWithin q → IsWithin (pop item_bytes q).1
  unfolding pop IsWithin
  pop-IsWithin q w = pop_front-IsWithin q.values q w

  accepting_final :
      (b : Bool) (value : T) (t : Trace T) → IsWithin t.final → IsWithin (accepting b value t).final
  unfolding accepting
  accepting_final true value t h = h
  accepting_final false value t h = h

  popping_final : (x : Option T) (t : Trace T) → IsWithin t.final → IsWithin (popping x t).final
  unfolding popping
  popping_final none t h = h
  popping_final (some value) t h = h

  -- A queue that holds no more values than its capacity does so after any calls.
  pub run-IsWithin :
      (calls : List (Call T)) (q : ReadyQueue T) → IsWithin q → IsWithin (run calls q).final
  unfolding run
  run-IsWithin [] q w = w
  run-IsWithin (push value ∷ calls) q w =
      accepting_final _ value _ (run-IsWithin calls _ (try_push-IsWithin value q w))
  run-IsWithin (take ∷ calls) q w = popping_final _ _ (run-IsWithin calls _ (pop-IsWithin q w))
