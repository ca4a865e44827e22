-- ===== src/Proxy.antt =====
-- internal/proxy/server.go
pub mod Text
pub mod Connection
pub mod Streaming
pub mod Server
