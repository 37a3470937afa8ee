-- ===== src/Cache.antt =====
-- The two expiring caches of the backend, which have the same code over different values: users by
-- name (webapp/backend/internal/service/auth.go) and user ids by session
-- (webapp/backend/internal/repository/session.go). A critical section of `mx` is one step; an
-- operation that takes the lock twice is two steps, see Cache/Race.antt. A time is a number of
-- nanoseconds; each `time.Now()` is an argument.
mod Defs
pub mod Contents
pub mod Lifetime
pub mod Evict
pub mod Oldest
pub mod Room
pub mod Laws
pub mod Race
unfoldable pub use Defs.*
mod Tests
