-- ===== src/Realtime.antt =====
-- The WebSocket layer, internal/realtime: the hub, a connection's two queues, the revalidation sweep.
pub mod Hub
pub mod Conn
pub mod Revalidate
mod Examples
