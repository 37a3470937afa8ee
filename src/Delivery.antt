-- ===== src/Delivery.antt =====
-- webapp/backend/internal/service/robot.go, `selectOrdersForDelivery`: the loops in Table, the whole
-- function in Select, and the proofs below.
pub mod Table
pub mod Select
pub mod Spec
pub mod Halves
mod Trace
pub mod Row
mod Fill
mod Loops
mod Parts
mod Choice
mod Ended
pub mod Divided
pub mod Optimal
pub mod Program
mod Tests
