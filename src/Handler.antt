-- ===== src/Handler.antt =====
-- webapp/backend/internal/handler and middleware: requests in, status codes out.
pub mod Access
pub mod Requests
pub mod Replies
pub mod Safety
pub mod Pages
pub mod Owned
pub mod Image
pub mod Confined
mod Tests
