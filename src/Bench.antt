-- ===== src/Bench.antt =====
-- benchmarker/worker/: the score of a load test and the programs that run one.
pub mod Machine
pub mod Score
pub mod LoadTest
pub mod Runner
pub mod Sample
mod Tests
