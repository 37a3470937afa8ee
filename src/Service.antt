-- ===== src/Service.antt =====
-- webapp/backend/internal/service: the services on top of the repositories.
pub mod Auth
pub mod Backing
pub mod Lists
pub mod Login
pub mod Session
pub mod Calm
pub mod Counter
pub mod Recognised
pub mod Timed
pub mod Turns
pub mod Verify
pub mod Placement
pub mod Product
pub mod Robot
pub mod Wanted
pub mod Plan
pub mod Refill
mod Tests
