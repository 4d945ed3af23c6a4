-- ===== src/Examples/Queue.antt =====
-- The theorems on the ready queue at a queue of two values.
use disaster_alert.Prelude.{ℕ, List, [], ◌∷◌, arith}
use disaster_alert.Runtime.ReadyQueue.{ReadyQueue, new_queue}
use disaster_alert.Runtime.ReadyQueue.Order.{
  Call, push, take, run, InOrder, IsWithin, run-InOrder, run-IsWithin,
}

abbrev calls : List (Call ℕ)
calls = push 1 ∷ push 2 ∷ push 3 ∷ take ∷ push 3 ∷ []

abbrev queue : ReadyQueue ℕ
queue = new_queue 4 16 (record { depth = 0; bytes = 0; backpressure = 0 })

run-InOrder_example : InOrder 8 queue.values (run 8 calls queue)
run-InOrder_example = run-InOrder 8 calls queue

queue-IsWithin : IsWithin 8 queue
unfolding IsWithin new_queue
queue-IsWithin = omega arith

run-IsWithin_example : IsWithin 8 (run 8 calls queue).final
run-IsWithin_example = run-IsWithin 8 calls queue queue-IsWithin
