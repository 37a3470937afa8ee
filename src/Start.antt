-- ===== src/Start.antt =====
-- How the backend starts: webapp/backend/cmd/main.go, webapp/backend/internal/server/server.go,
-- webapp/backend/internal/db/db.go and webapp/backend/internal/telemetry/.
pub mod Environment
pub mod Telemetry
pub mod Tracing
pub mod Tracers
pub mod Database
pub mod Routes
pub mod Guarded
pub mod Owners
mod Tests
