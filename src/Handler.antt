-- ===== src/Handler.antt =====
-- The HTTP handlers of internal/handler/server/handler.go.
pub mod Http
pub mod Writers
pub mod Signed
pub mod Served
pub mod Body
pub mod Event
pub mod Query
pub mod Update
pub mod Reads
pub mod Routes
