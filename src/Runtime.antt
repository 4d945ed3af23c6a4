-- ===== src/Runtime.antt =====
-- src/runtime: the queue between the stages of the pipeline, and the lanes of its deliveries.
pub mod ReadyQueue
pub mod Lane
