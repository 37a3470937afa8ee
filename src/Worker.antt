-- ===== src/Worker.antt =====
-- benchmarker/worker: the worker that takes load test requests from a queue.
pub mod Flow
pub mod Poll
pub mod Settled
pub mod Stuck
pub mod Filter
pub mod Clients
pub mod Helpers
pub mod Post
pub mod Program
pub mod Scored
mod Tests
