-- ===== src/Rpc.antt =====
-- lib/rpc: the HTTP server.
pub mod Http
