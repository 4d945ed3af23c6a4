-- ===== src/Runtime/ReadyQueue.antt =====
-- src/runtime/ready_queue.rs, with the counters of src/runtime/status.rs that it sets.
--
-- The lock makes a call one step. `item_bytes` is the size of a value, `mem::size_of`; a `usize` has 64
-- bits. Waking waiters is not modelled.
pub mod Order
use disaster_alert.Prelude.{
  ℕ, ◌+◌, ◌-◌, ◌*◌, ◌^◌, Bool, true, false, ◌||◌, Option, none, some, List, [], ◌∷◌, ◌++◌, leb, ltb,
  if◌then◌else◌, length,
}

-- `saturating_add` and `saturating_mul` of `usize`.
unfoldable pub saturate : ℕ → ℕ
saturate n = if leb n (2 ^ 64 - 1) then n else 2 ^ 64 - 1

pub record ReadyQueueMetrics : Type 0 where
  pub depth : ℕ
  pub bytes : ℕ
  pub backpressure : ℕ

pub record ReadyQueue (T : Type 0) : Type 0 where
  pub values : List T
  pub capacity_count : ℕ
  pub capacity_bytes : ℕ
  pub metrics : ReadyQueueMetrics

-- `ReadyQueue::new`.
unfoldable pub new_queue : {T : Type 0} → ℕ → ℕ → ReadyQueueMetrics → ReadyQueue T
new_queue capacity_count capacity_bytes metrics = record {
  values = [];
  capacity_count = capacity_count;
  capacity_bytes = capacity_bytes;
  metrics = metrics;
}

-- `record_backpressure`; `fetch_add` wraps around.
record_backpressure : ReadyQueueMetrics → ReadyQueueMetrics
record_backpressure m = record m {
  backpressure = if leb (2 ^ 64 - 1) m.backpressure then 0 else m.backpressure + 1;
}

set_depth : ℕ → ℕ → ReadyQueueMetrics → ReadyQueueMetrics
set_depth depth bytes m = record m { depth = depth; bytes = bytes }

module _ {T : Type 0} (item_bytes : ℕ) where
  -- The two ends of `try_push`: no room, or a new last value.
  push_unless : Bool → ℕ → T → ReadyQueue T → Bool × ReadyQueue T
  unfolding record_backpressure set_depth
  push_unless true next_bytes value q =
      (false, record q { metrics = record_backpressure q.metrics })
  push_unless false next_bytes value q = (
    true,
    record q {
      values = q.values ++ value ∷ [];
      metrics = set_depth (length q.values + 1) next_bytes q.metrics;
    },
  )

  unfoldable pub try_push : T → ReadyQueue T → Bool × ReadyQueue T
  unfolding saturate push_unless
  try_push value q =
      let next_bytes = saturate (saturate (length q.values + 1) * item_bytes) in
      push_unless (leb q.capacity_count (length q.values) || ltb q.capacity_bytes next_bytes)
        next_bytes value q

  pop_front : List T → ReadyQueue T → Option T × ReadyQueue T
  unfolding saturate set_depth
  pop_front [] q = (none, record q { values = []; metrics = set_depth 0 0 q.metrics })
  pop_front (value ∷ rest) q = (
    some value,
    record q {
      values = rest;
      metrics = set_depth (length rest) (saturate (length rest * item_bytes)) q.metrics;
    },
  )

  unfoldable pub pop : ReadyQueue T → Option T × ReadyQueue T
  unfolding pop_front
  pop q = pop_front q.values q
